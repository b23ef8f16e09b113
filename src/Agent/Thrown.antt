-- ===== src/Agent/Thrown.antt =====
-- src/native_app.cpp: requests of agents that end the browser, or do what nobody asked for.
use vant.Prelude.{◌⊎◌, ◌≡◌, refl, inl, inr, true, false, some, ◌==◌, Bytes, codes, bytes_eq}
use vant.Strings.{is_empty, find_text, starts_with}
use vant.Rpc.{AgentRequest, agent_ok, field, locate, json_param_string, json_param_integer}
use vant.Downloads.{Owner, DownloadContext, find_context, cancel_download}
use vant.Agent.{Host, replied, thrown}
use vant.Agent.Data.{downloads_cancel, bookmarks_add, permissions_set}
use vant.Agent.Dispatch.{methods, dispatch}
use vant.UserData.{add_bookmark, set_permission, is_http}
use vant.Downloads.{set_context}

-- A bookmark without a URI, or a permission for an origin that is not HTTP(S).
abbrev pub IsRefused : AgentRequest → Type 0
IsRefused r =
    ((r.method ≡ codes "bookmarks.add")
      × (is_empty (json_param_string r.params_json (codes "uri")) ≡ true))
    ⊎ ((r.method ≡ codes "permissions.set")
        × (is_http (json_param_string r.params_json (codes "origin")) ≡ false))

-- A request for a bookmark without a URI, or for a permission of an origin that is not HTTP(S), is
-- not answered: the store's exception leaves the callback of the main loop, which nothing catches.
pub dispatch-thrown :
    (h : Host) (r : AgentRequest) (o : Owner) → IsRefused r → dispatch h r o ≡ thrown
unfolding dispatch methods bookmarks_add permissions_set add_bookmark set_permission bytes_eq
dispatch-thrown h r o (inl (named, empty)) = rw (named, empty) refl
dispatch-thrown h r o (inr (named, other)) = rw (named, other) refl

-- A request to cancel a download that names none, where a download runs that has no row of the store,
-- as every private one does, cancels the first such download and leaves the store as it was.
pub dispatch-cancel :
    (h : Host) (id : Bytes) (o : Owner) (c : DownloadContext)
    → find_context (λ x. x.record_id == 0) o.active_downloads ≡ some c
    → c.private_mode ≡ true
    → dispatch h (record { id = id; method = codes "downloads.cancel"; params_json = codes "{}" }) o
      ≡ replied (agent_ok id (codes "true")) (record o {
        active_downloads = set_context (record c { cancelled = true }) o.active_downloads;
      })
unfolding dispatch methods downloads_cancel cancel_download json_param_integer field locate
    find_text starts_with bytes_eq
dispatch-cancel h id o c found private_mode = rw (found, private_mode) refl
