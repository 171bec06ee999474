-- ===== src/Store/Words/Prefix.antt =====
-- The terms of a query are the first of the terms of a document with the same text.
use tekes_memory.Prelude.{
  ◌≡◌, refl, sym, ap, ◌∙◌, ℕ, zero, suc, ◌≤◌, ◌<◌, Bool, true, false, not, ◌&&◌, ◌||◌, String, List,
  [], ◌∷◌, ◌++◌, Option, none, some, eq_iff, any, length, length-append, nat_eq, arith, inl, inr,
  Bool-cases,
}
use tekes_memory.Common.{Env}
use tekes_memory.Store.Words.{has, collect, words, query_words, words_limited, is_full}

abbrev pub take {ℓ} : {A : Type ℓ} → ℕ → List A → List A
take zero xs = []
take (suc n) [] = []
take (suc n) (x ∷ xs) = x ∷ take n xs

take-all {ℓ} : {A : Type ℓ} (n : ℕ) (xs : List A) → length xs ≤ n → take n xs ≡ xs
take-all zero [] h = refl
take-all zero (x ∷ xs) h = absurd (omega arith)
take-all (suc n) [] h = refl
take-all (suc n) (x ∷ xs) h = ap (λ l. x ∷ l) (take-all n xs (omega arith))

take-append {ℓ} :
    {A : Type ℓ} (n : ℕ) (xs ys : List A) → n ≤ length xs → take n (xs ++ ys) ≡ take n xs
take-append zero xs ys h = refl
take-append (suc n) [] ys h = absurd (omega arith)
take-append (suc n) (x ∷ xs) ys h = ap (λ l. x ∷ l) (take-append n xs ys (omega arith))

length-push : (out : List String) (t : String) → length (out ++ t ∷ []) ≡ suc (length out)
length-push out t = omega (arith, length-append out (t ∷ []))

-- What is collected already stays at the front.
take-collect :
    (n : ℕ) (ts out : List String) → n ≤ length out → take n (collect none ts out) ≡ take n out
unfolding collect
take-collect n [] out h = refl
take-collect n (t ∷ ts) out h = elim (Bool-cases (has t out)) [
  | inl e ↦ rw e (take-collect n ts out h)
  | inr e ↦ rw e (
      take-collect n ts (out ++ t ∷ []) (omega (arith, length-push out t))
      ∙ take-append n out (t ∷ []) h)
]

collect-take :
    (n : ℕ) (ts out : List String)
    → length out < n
    → collect (some n) ts out ≡ take n (collect none ts out)
unfolding collect
collect-take n [] out h = sym (take-all n out (omega arith))
collect-take n (t ∷ ts) out h = elim (Bool-cases (has t out)) [
  | inl e ↦ rw e (collect-take n ts out h)
  | inr e ↦ elim (Bool-cases (nat_eq (length (out ++ t ∷ [])) n)) [
    | inl full ↦
        rw (e, full)
          (sym (take-all n (out ++ t ∷ []) (ground arith))
            ∙ sym (take-collect n ts (out ++ t ∷ []) (ground arith)))
    | inr more ↦
        rw (e, more) (collect-take n ts (out ++ t ∷ []) (ground (arith, length-push out t)))
  ]
]

-- The terms of a query are the first 256 terms that the same text has as a document.
pub query_words-prefix : (env : Env) (s : String) → query_words env s ≡ take 256 (words env s)
unfolding query_words words words_limited
query_words-prefix env s = collect-take 256 _ [] (omega arith)

-- No term stands twice.
abbrev pub distinct : List String → Bool
distinct [] = true
distinct (t ∷ ts) = not (has t ts) && distinct ts

has-append : (t : String) (xs ys : List String) → has t (xs ++ ys) ≡ (has t xs || has t ys)
unfolding any
has-append t [] ys = refl
has-append t (x ∷ xs) ys = ground (arith, has-append t xs ys)

distinct-push :
    (out : List String) (t : String)
    → distinct out ≡ true
    → has t out ≡ false
    → distinct (out ++ t ∷ []) ≡ true
unfolding any
distinct-push [] t d h = refl
distinct-push (x ∷ out) t d h =
    ground (arith, has-append x out (t ∷ []), distinct-push out t, eq_iff x t, eq_iff t x)

collect-distinct :
    (limit : Option ℕ) (ts out : List String)
    → distinct out ≡ true
    → distinct (collect limit ts out) ≡ true
unfolding collect
collect-distinct limit [] out d = d
collect-distinct limit (t ∷ ts) out d = elim (Bool-cases (has t out)) [
  | inl e ↦ rw e (collect-distinct limit ts out d)
  | inr e ↦ elim (Bool-cases (is_full limit (length (out ++ t ∷ [])))) [
    | inl full ↦ rw (e, full) (distinct-push out t d e)
    | inr more ↦ rw (e, more) (collect-distinct limit ts (out ++ t ∷ []) (distinct-push out t d e))
  ]
]

-- No term of a document is indexed twice.
pub words-distinct : (env : Env) (s : String) → distinct (words env s) ≡ true
unfolding words words_limited
words-distinct env s = collect-distinct none _ [] refl
