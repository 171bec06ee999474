-- ===== src/Store/Words.antt =====
-- `words`, `words_limited` and `query_words` of src/store.rs: the terms that are indexed and asked.
pub mod Prefix
use Prim.Native.Char.{code}
use Prim.Native.String.{String, ◌++◌ as append}
use Prim.Native.String
use tekes_memory.Prelude.{
  ℕ, Bool, false, List, [], ◌∷◌, ◌++◌, Option, none, some, ◌==◌, any, leb, length, nat_eq,
  if◌then◌else◌,
}
use tekes_memory.Common.{Env}

-- `chars.windows(2)`
unfoldable pub bigrams : String → List String
bigrams (String.◌∷◌ c (String.◌∷◌ d s)) =
    String.◌∷◌ c (String.◌∷◌ d String.[]) ∷ bigrams (String.◌∷◌ d s)
bigrams _ = []

-- A run of Chinese characters gives its pairs of neighbours, all else is one term. A match is never
-- empty, so `chars[0]` is there.
unfoldable pub tokens_of : String → List String
unfolding bigrams
tokens_of (String.◌∷◌ c (String.◌∷◌ d s)) =
    if leb 0x3400 (code c)
    then bigrams (String.◌∷◌ c (String.◌∷◌ d s))
    else String.◌∷◌ c (String.◌∷◌ d s) ∷ []
tokens_of t = t ∷ []

abbrev pub flat_tokens : List String → List String
flat_tokens [] = []
flat_tokens (m ∷ ms) = tokens_of m ++ flat_tokens ms

-- `limit.is_some_and(|limit| out.len() == limit)`
abbrev pub is_full : Option ℕ → ℕ → Bool
is_full none n = false
is_full (some limit) n = nat_eq n limit

abbrev pub has : String → List String → Bool
has t l = any (λ x. x == t) l

-- The two loops, over all tokens: `seen` holds what `out` holds.
unfoldable pub collect : Option ℕ → List String → List String → List String
collect limit [] out = out
collect limit (t ∷ ts) out =
    let skipped = collect limit ts out in
    let out' = out ++ t ∷ [] in
    let pushed = collect limit ts out' in
    if has t out then skipped else if is_full limit (length out') then out' else pushed

unfoldable pub words_limited : Env → String → Option ℕ → List String
unfolding collect tokens_of
words_limited env s limit = collect limit (flat_tokens (env.word_matches (env.to_lowercase s))) []

-- All terms, for a document.
unfoldable pub words : Env → String → List String
unfolding words_limited
words env s = words_limited env s none

-- The first 256 terms, for a query.
unfoldable pub query_words : Env → String → List String
unfolding words_limited
query_words env s = words_limited env s (some 256)

-- `join(sep)`
unfoldable pub join : String → List String → String
join sep [] = ""
join sep (x ∷ []) = x
join sep (x ∷ y ∷ l) = append x (append sep (join sep (y ∷ l)))
