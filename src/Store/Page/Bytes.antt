-- ===== src/Store/Page/Bytes.antt =====
-- The byte budget of a page of `search` in src/store.rs.
use Prim.Native.String.{len}
use tekes_memory.Prelude.{
  ◌≡◌, refl, subst, sym, ℕ, ◌+◌, ◌-◌, ◌≤◌, ◌<◌, String, Bool, true, false, not, List, [], ◌∷◌, ◌++◌,
  some, leb, length, arith, inl, inr, Bool-cases, Option-cases, if◌then◌else◌,
}
use tekes_memory.Json.{Value, str}
use tekes_memory.Json.Access.{index, is_some}
use tekes_memory.Json.Edit.{set_key}
use tekes_memory.Common.{Env, ok}
use tekes_memory.Store.Exec.{Settings, State, Exec, pure, ◌>>=◌}
use tekes_memory.Store.Inversion.{bind_ok, pure_ok}
use tekes_memory.Store.Rows.{valid, current_status}
use tekes_memory.Store.Hit.{search_hit}
use tekes_memory.Store.Hit.Fits.{search_hit-fits}
use tekes_memory.Store.Page.{Page, Budget, size_of, add_hit, place, fill_page}

-- What is asked of the canonical form: it is not empty, and one more element of a list costs its own
-- bytes and a comma.
pub record Compact (env : Env) : Type 0 where
  pub not_empty : (v : Value) → 0 < len (env.canonical v)
  pub one_item :
      (items conflicts : List Value) (r : Value)
      → size_of env (items ++ r ∷ []) conflicts
        ≤ size_of env items conflicts + 1 + len (env.canonical r)
  pub one_conflict :
      (items conflicts : List Value) (r : Value)
      → size_of env items (conflicts ++ r ∷ [])
        ≤ size_of env items conflicts + 1 + len (env.canonical r)

abbrev pub page_size : Env → Page → ℕ
page_size env page = size_of env page.items page.conflicts

module _ (env : Env) (compact : Compact env) (b : Budget) where
  add_hit-size :
      (contested : Bool) (r hit : Value) (page : Page)
      → search_hit env r b.query (b.cap - (page_size env page + 1)) ≡ some hit
      → page_size env (add_hit contested hit page) ≤ b.cap
  unfolding add_hit
  add_hit-size true r hit page h = omega (
    arith,
    search_hit-fits env r hit b.query _ h,
    compact.not_empty hit,
    compact.one_conflict page.items page.conflicts hit,
  )
  add_hit-size false r hit page h = omega (
    arith,
    search_hit-fits env r hit b.query _ h,
    compact.not_empty hit,
    compact.one_item page.items page.conflicts hit,
  )

  place-size :
      (r : Value) (page : Page)
      → page_size env page ≤ b.cap
      → page_size env (place env b r page).0 ≤ b.cap
  unfolding place
  place-size r page h =
      elim (Bool-cases (leb b.max_items (length page.items + length page.conflicts))) [
        | inl full ↦ rw full h
        | inr more ↦
            elim (Option-cases (search_hit env r b.query (b.cap - (page_size env page + 1)))) [
              | inr (hit, e) ↦ rw (more, e) (add_hit-size _ r hit page e)
              | inl e ↦
                  elim (Bool-cases
                    (is_some (search_hit env r b.query (b.cap - (size_of env [] [] + 1))))) [
                      | inl t ↦ rw (more, e, t) h
                      | inr f ↦ rw (more, e, f) h
                    ]
            ]
      ]

fill_page-nil : (st : Settings) (b : Budget) (page : Page) → fill_page st b [] page ≡ pure page
unfolding fill_page
fill_page-nil st b page = refl

abbrev after_row : Settings → Budget → List Value → Page × Bool → Exec Page
after_row st b rs (page, more) = if more then fill_page st b rs page else pure page

abbrev row_page : Settings → Budget → Value → Page → String → Page × Bool
row_page st b r page now = place st.env b (set_key r "status" (str now)) page

fill_page-row :
    (st : Settings) (b : Budget) (r : Value) (rs : List Value) (page : Page)
    → fill_page st b (r ∷ rs) page ≡ (
        if not (valid st (index r "fact"))
        then fill_page st b rs (record page { consumed = page.consumed + 1 })
        else (current_status st r >>= λ now. after_row st b rs (row_page st b r page now)))
unfolding fill_page
fill_page-row st b r rs page = refl

after_row-fits :
    (st : Settings) (b : Budget) (rs : List Value) (placed : Page × Bool) (page' : Page)
    (s s' : State)
    → ((page : Page)
        → page_size st.env page ≤ b.cap
        → fill_page st b rs page s ≡ (ok page', s')
        → page_size st.env page' ≤ b.cap)
    → page_size st.env placed.0 ≤ b.cap
    → after_row st b rs placed s ≡ (ok page', s')
    → page_size st.env page' ≤ b.cap
after_row-fits st b rs (page, true) page' s s' rest h e = rest page h e
after_row-fits st b rs (page, false) page' s s' rest h e =
    subst (λ (p : Page). page_size st.env p ≤ b.cap) (sym (pure_ok page s e)) h

-- A page that starts within its budget of bytes and is filled without an error ends within it, if
-- the canonical form is compact.
pub fill_page-fits :
    (st : Settings) (b : Budget) (rs : List Value) (page page' : Page) (s s' : State)
    → Compact st.env
    → page_size st.env page ≤ b.cap
    → fill_page st b rs page s ≡ (ok page', s')
    → page_size st.env page' ≤ b.cap
fill_page-fits st b [] page page' s s' c h e =
    subst (λ (p : Page). page_size st.env p ≤ b.cap)
      (sym (pure_ok page s (rw (fill_page-nil st b page) at e))) h
fill_page-fits st b (r ∷ rs) page page' s s' c h e = elim (Bool-cases (valid st (index r "fact"))) [
  | inr passed ↦
      fill_page-fits st b rs _ page' s s' c h (rw (fill_page-row st b r rs page, passed) at e)
  | inl now ↦
      let i =
        bind_ok (current_status st r) (λ n. after_row st b rs (row_page st b r page n)) s
          (rw (fill_page-row st b r rs page, now) at e) in
      after_row-fits st b rs (row_page st b r page i.0) page' i.1 s'
        (λ p hp ep. fill_page-fits st b rs p page' i.1 s' c hp ep)
        (place-size st.env c b (set_key r "status" (str i.0)) page h) i.3
]
