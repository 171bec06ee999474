-- ===== src/Server/Auth/Alone.antt =====
-- Whom `Inner::auth` of src/server.rs lets in.
use tekes_memory.Prelude.{
  ◌≡◌, refl, sym, subst, ap, ℕ, ◌≤◌, String, List, [], ◌∷◌, Option, some, Bool, true, false, not,
  find_first, select, length, arith, Bool-cases, inl, inr,
}
use tekes_memory.Json.{Value}
use tekes_memory.Json.Access.{index, as_array}
use tekes_memory.Common.{Env, Result, ok, err}
use tekes_memory.Common.Text.{strip_prefix}
use tekes_memory.Config.Service.{Url, service_config}
use tekes_memory.Config.Service.Sound.{Sound, service_config-Sound, array-index}
use tekes_memory.Server.Http.{
  Headers, find_header, header, pass, need, pass-injective, reject_if-pass, bind-pass, then-pass,
  need-pass,
}
use tekes_memory.Server.Auth.{
  auth, local_host, check_origin, principals_of, has_token, configured, list_or_empty, plain,
}

not-false : (b : Bool) → not b ≡ false → b ≡ true
not-false true h = refl
not-false false h = absurd (cc)

module _ {ℓ} {A : Type ℓ} where
  -- What is found is the first of what is selected.
  find_first-select :
      (f : A → Bool) (xs : List A) (x : A)
      → find_first f xs ≡ some x
      → (ys : List A) × (select f xs ≡ x ∷ ys)
  unfolding find_first select
  find_first-select f [] x h = absurd (cc)
  find_first-select f (y ∷ xs) x h = elim (Bool-cases (f y)) [
    | inl t ↦ (select f xs, rw t (ap (λ z. z ∷ select f xs) (cc (rw t at h))))
    | inr t ↦ rw t (find_first-select f xs x (rw t at h))
  ]

  only_one : (xs ys : List A) (x : A) → xs ≡ x ∷ ys → length xs ≤ 1 → xs ≡ x ∷ []
  only_one xs [] x h k = h
  only_one xs (y ∷ ys) x h k = absurd (omega (arith, ap length h, k))

principals_of-array :
    (c : Value) (ps : List Value) → as_array (index c "principals") ≡ some ps → principals_of c ≡ ps
unfolding principals_of
principals_of-array c ps h = ap list_or_empty h

configured-pass : (env : Env) (r : Result Value) (c : Value) → configured env r ≡ pass c → r ≡ ok c
configured-pass env (ok d) c h = ap ok (pass-injective d c h)
configured-pass env (err e) c h = absurd (cc)

-- A request that is let in names this host, bears a token, and is taken for the one principal of
-- the accepted configuration whose hash is the token's: no other principal has that hash.
pub auth-alone :
    (env : Env) (port : ℕ) (parse_url : String → Option Url) (file : Result Value) (h : Headers)
    (p : Value)
    → auth env port (service_config env parse_url file) h ≡ pass p
    → (local_host env port (header h "host") ≡ true)
      × ((c : Value) × (file ≡ ok c)
          × Sound c
          × ((token : String) × (strip_prefix "Bearer " (header h "authorization") ≡ some token)
              × (select (has_token (env.hash token)) (principals_of c) ≡ p ∷ [])))
unfolding auth
auth-alone env port parse_url file h p e =
    let (host, e1) = reject_if-pass (not (local_host env port (header h "host"))) _ _ p e in
    let (c, e2, e3) = bind-pass (configured env (service_config env parse_url file)) _ p e1 in
    let (e4, e5) = then-pass (check_origin env c (find_header h "origin")) _ p e3 in
    let (token, e6, e7) =
      bind-pass (need (strip_prefix "Bearer " (header h "authorization")) (plain env 401)) _ p e5 in
    let (read, sound) = service_config-Sound env parse_url file c (configured-pass env _ c e2) in
    let (ys, first) =
      find_first-select (has_token (env.hash token)) (principals_of c) p (need-pass _ _ p e7) in
    (
      not-false _ host,
      (
        c,
        read,
        sound,
        (
          token,
          need-pass _ _ token e6,
          only_one _ ys p first (
              subst (λ ps. length (select (has_token (env.hash token)) ps) ≤ 1)
                (sym (
                  principals_of-array c sound.principals
                    (array-index c "principals" _ sound.read_principals)))
                (sound.one_token (env.hash token))),
        ),
      ),
    )
