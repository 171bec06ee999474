-- ===== src/Adapter/Rows/Numbered.antt =====
-- The rows that `prefix` of src/adapter.rs returns.
use tekes_memory.Prelude.{
  ◌≡◌, refl, subst, ap, ℕ, zero, suc, ◌+◌, pos, List, [], ◌∷◌, Bool, true, false, not, length,
}
use tekes_memory.Json.{Value, int, json_eq}
use tekes_memory.Json.Access.{index}
use tekes_memory.Common.{Env, ok, fail_if, source_unavailable, ok_then, not_failed, ok-injective}
use tekes_memory.Common.Strict.{decode}
use tekes_memory.Adapter.Rows.{Line, read_rows, prefix_rows, is_genesis, is_broken}

-- The rows are numbered from a number on.
abbrev pub Numbered : ℕ → List Value → Type 0
Numbered n [] = Unit
Numbered n (r ∷ rs) = (json_eq (index r "seq") (int (pos n)) ≡ true) × Numbered (suc n) rs

accepted : (b : Bool) → not b ≡ false → b ≡ true
accepted true h = refl
accepted false h = absurd (cc)

read_rows-Numbered :
    (env : Env) (n seq total : ℕ) (lines : List Line) (rows : List Value)
    → read_rows env n seq total lines ≡ ok rows
    → (length rows ≡ n) × Numbered seq rows
unfolding read_rows
read_rows-Numbered env zero seq total lines rows h =
    subst (λ xs. (length xs ≡ 0) × Numbered seq xs) (ok-injective [] rows h) (refl, tt)
read_rows-Numbered env (suc n) seq total [] rows h = absurd (cc)
read_rows-Numbered env (suc n) seq total (l ∷ ls) rows h =
    let (u, e1, h1) = ok_then (fail_if (is_broken l total) source_unavailable) _ rows h in
    let (row, e2, h2) = ok_then (decode env.parse_tree l.content) _ rows h1 in
    let (v, e3, h3) =
      ok_then (fail_if (not (json_eq (index row "seq") (int (pos seq)))) source_unavailable) _ rows
        h2 in
    let (rest, e4, h4) = ok_then (read_rows env n (suc seq) (total + l.size) ls) _ rows h3 in
    let (size, numbered) = read_rows-Numbered env n (suc seq) (total + l.size) ls rest e4 in
    subst (λ xs. (length xs ≡ suc n) × Numbered seq xs) (ok-injective (row ∷ rest) rows h4)
      (ap suc size, (accepted _ (not_failed _ _ v e3), numbered))

-- A ledger that is read has as many rows as were asked for, numbered from one on without a gap, and
-- begins with the genesis of the thread and the workspace of the request.
pub prefix_rows-Numbered :
    (env : Env) (r : Value) (through : ℕ) (lines : List Line) (rows : List Value)
    → prefix_rows env r through lines ≡ ok rows
    → (length rows ≡ through) × (Numbered 1 rows × (is_genesis r rows ≡ true))
unfolding prefix_rows
prefix_rows-Numbered env r through lines rows h =
    let (read, e1, h1) = ok_then (read_rows env through 1 0 lines) _ rows h in
    let (u, e2, h2) = ok_then (fail_if (not (is_genesis r read)) source_unavailable) _ rows h1 in
    let (size, numbered) = read_rows-Numbered env through 1 0 lines read e1 in
    subst (λ xs. (length xs ≡ through) × (Numbered 1 xs × (is_genesis r xs ≡ true)))
      (ok-injective read rows h2) (size, (numbered, accepted _ (not_failed _ _ u e2)))
