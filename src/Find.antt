-- ===== src/Find.antt =====
-- src/native_app.cpp, find in page: the fields of `WindowState` that its handlers keep, and what the
-- handlers ask of WebKit, a list of calls. A view is its number; the scripts are the source's text.
-- What a script returns arrives later, as the number of matches, or as nothing where it is no number
-- or a negative one.
pub mod Scripts
pub mod Laws
pub mod History
pub mod Tests
use vant.Prelude.{
  ℕ, ◌+◌, ◌-◌, ◌%◌, ◌^◌, Bool, true, false, not, ◌&&◌, ◌||◌, List, [], ◌∷◌, ◌++◌, Option, none,
  some, leb, ◌==◌, if◌then◌else◌, Bytes, codes,
}
use vant.Strings.{is_empty}
use vant.Decimal.{to_string}
use vant.Json.{json_string}

pub record FindState : Type 0 where
  pub find_current : ℕ
  pub find_total : ℕ
  pub find_generation : ℕ
  pub custom_find : Bool
  -- The text of the entry, that of the count, and whether the bar is shown.
  pub entry : Bytes
  pub find_count : Bytes
  pub find_bar : Bool

-- The calls of WebKit and GTK; the first number is the view.
pub data FindCall : Type 0 where
  search_finish : ℕ → FindCall
  search count_matches : ℕ → Bytes → FindCall
  search_next search_previous : ℕ → FindCall
  evaluate : ℕ → Bytes → FindCall
  -- The script, and the generation that its result will carry.
  evaluate_counted : ℕ → Bytes → ℕ → FindCall
  grab_focus : ℕ → FindCall
  select_entry : FindCall

unfoldable pub fresh_find : FindState
fresh_find = record {
  find_current = 0;
  find_total = 0;
  find_generation = 0;
  custom_find = false;
  entry = [];
  find_count = codes "0 / 0";
  find_bar = false;
}

unfoldable pub count_label : ℕ → ℕ → Bytes
count_label current total =
    if total == 0 then codes "0 / 0" else to_string current ++ codes " / " ++ to_string total

abbrev pub update_find_count : FindState → FindState
update_find_count s = record s { find_count = count_label s.find_current s.find_total }

-- `count ? 1 : 0`.
abbrev pub first_match : ℕ → ℕ
first_match count = if count == 0 then 0 else 1

unfoldable pub find_counted : ℕ → FindState → FindState
find_counted count s =
    if s.custom_find
    then s
    else update_find_count (record s { find_total = count; find_current = first_match count })

-- `++state->find_generation`, an `unsigned`.
abbrev pub next_generation : ℕ → ℕ
next_generation g = (g + 1) % 2 ^ 32

abbrev pub same_view : Option ℕ → ℕ → Bool
same_view none v = false
same_view (some w) v = w == v

abbrev counted_or_not : ℕ → Option ℕ → FindState → FindState × List FindCall
counted_or_not view (some count) s = (
  update_find_count
      (record s { custom_find = true; find_total = count; find_current = first_match count }),
  [],
)
counted_or_not view none s =
    (record s { custom_find = false }, search view s.entry ∷ count_matches view s.entry ∷ [])

-- The result of a script of `view`, whose generation was `generation`; `active` is the state's view.
unfoldable pub find_evaluated : ℕ → ℕ → Option ℕ → Option ℕ → FindState → FindState × List FindCall
find_evaluated view generation result active s =
    if not (generation == s.find_generation) || not (same_view active view)
    then (s, [])
    else counted_or_not view result s

unfoldable pub clear_script : ℕ → Bytes
clear_script generation =
    codes "window.__vantageFindGeneration="
    ++ to_string generation
    ++ codes
        ";document.querySelectorAll('[data-vantage-find]').forEach(m=>m.replaceWith(document.createTextNode(m.textContent)));"
    ++ codes "document.body?.normalize();delete window.__vantageFind"

-- The script of a search, before the query and behind it.
unfoldable pub search_head : ℕ → Bytes
search_head generation =
    codes "(()=>{const generation="
    ++ to_string generation
    ++ codes
        ";if((window.__vantageFindGeneration||0)>generation)return -2;window.__vantageFindGeneration=generation;"
    ++ codes
        "document.querySelectorAll('[data-vantage-find]').forEach(m=>m.replaceWith(document.createTextNode(m.textContent)));"
    ++ codes "document.body?.normalize();const q="

unfoldable pub search_tail : Bytes
search_tail =
    codes ",needle=q.toLocaleLowerCase(),nodes=[],matches=[];"
    ++ codes "const w=document.createTreeWalker(document.body,NodeFilter.SHOW_TEXT,{acceptNode(n){"
    ++ codes
        "const p=n.parentElement;if(!p||p.closest('[contenteditable=true]')||/^(SCRIPT|STYLE|NOSCRIPT|TEXTAREA|INPUT)$/.test(p.tagName))return NodeFilter.FILTER_REJECT;"
    ++ codes
        "return n.data.toLocaleLowerCase().includes(needle)?NodeFilter.FILTER_ACCEPT:NodeFilter.FILTER_REJECT}});"
    ++ codes
        "for(let n;n=w.nextNode();)nodes.push(n);if(window.__vantageFindGeneration!==generation)return -2;"
    ++ codes
        "for(const n of nodes){const original=n.data,lower=original.toLocaleLowerCase(),fragment=document.createDocumentFragment();let from=0,at;"
    ++ codes
        "while((at=lower.indexOf(needle,from))>=0){fragment.append(original.slice(from,at));const mark=document.createElement('span');"
    ++ codes
        "mark.dataset.vantageFind='';mark.className='vantage-find-match';mark.textContent=original.slice(at,at+needle.length);"
    ++ codes
        "fragment.append(mark);matches.push(mark);from=at+needle.length}fragment.append(original.slice(from));n.replaceWith(fragment)}"
    ++ codes
        "window.__vantageFind={matches,index:0};if(matches.length){const m=matches[0];m.classList.add('vantage-find-current');"
    ++ codes
        "const r=document.createRange();r.selectNodeContents(m);const b=r.getBoundingClientRect();"
    ++ codes "window.scrollBy({top:b.top+b.height/2-innerHeight/2})}return matches.length})()"

unfoldable pub search_script : ℕ → Bytes → Bytes
search_script generation text = search_head generation ++ (json_string text ++ search_tail)

-- The text of the entry is `text`.
unfoldable pub find_changed : Option ℕ → Bytes → FindState → FindState × List FindCall
find_changed none text s = (record s { entry = text }, [])
find_changed (some view) text s =
    let generation = next_generation s.find_generation in
    let t : FindState = record s {
      entry = text;
      custom_find = false;
      find_generation = generation;
    } in
    if is_empty text
    then (
      update_find_count (record t { find_current = 0; find_total = 0 }),
      search_finish view ∷ evaluate view (clear_script generation) ∷ [],
    )
    else (
      t,
      search_finish view ∷ evaluate_counted view (search_script generation text) generation ∷ [],
    )

unfoldable pub move_script : Bytes → Bytes
move_script direction =
    codes "(()=>{const f=window.__vantageFind;if(!f?.matches.length)return;"
    ++ codes "f.matches[f.index].classList.remove('vantage-find-current');"
    ++ codes "f.index=(f.index+"
    ++ direction
    ++ codes "+f.matches.length)%f.matches.length;"
    ++ codes
        "const m=f.matches[f.index];m.classList.add('vantage-find-current');const r=document.createRange();r.selectNodeContents(m);"
    ++ codes
        "const b=r.getBoundingClientRect();window.scrollBy({top:b.top+b.height/2-innerHeight/2,behavior:'smooth'})})()"

abbrev pub move_custom_find : ℕ → Bytes → FindCall
move_custom_find view direction = evaluate view (move_script direction)

unfoldable pub find_next : Option ℕ → FindState → FindState × List FindCall
find_next none s = (s, [])
find_next (some view) s = if s.find_total == 0 then (s, []) else (
  update_find_count (record s { find_current = s.find_current % s.find_total + 1 }),
  (if s.custom_find then move_custom_find view (codes "1") else search_next view) ∷ [],
)

unfoldable pub find_previous : Option ℕ → FindState → FindState × List FindCall
find_previous none s = (s, [])
find_previous (some view) s = if s.find_total == 0 then (s, []) else (
  update_find_count (record s {
    find_current = if leb s.find_current 1 then s.find_total else s.find_current - 1;
  }),
  (if s.custom_find then move_custom_find view (codes "-1") else search_previous view) ∷ [],
)

unfoldable pub close_find : Option ℕ → FindState → FindState × List FindCall
close_find none s = (record s { find_bar = false }, [])
close_find (some view) s =
    let generation = next_generation s.find_generation in
    (
      record s { find_generation = generation; find_bar = false },
      search_finish view ∷ evaluate view (clear_script generation) ∷ grab_focus view ∷ [],
    )

unfoldable pub show_find : FindState → FindState × List FindCall
show_find s = (record s { find_bar = true }, select_entry ∷ [])
