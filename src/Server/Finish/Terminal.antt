-- ===== src/Server/Finish/Terminal.antt =====
-- The answer that `handle` of src/server.rs finds in a stream of events.
use tekes_memory.Prelude.{
  ◌≡◌, refl, sym, subst, ap, ◌∙◌, String, List, [], ◌∷◌, Option, none, some, ◌==◌, Bool, true,
  false, not, select, Bool-cases, inl, inr, if_true, if_false,
}
use tekes_memory.Json.{Value}
use tekes_memory.Json.Access.{is_some}
use tekes_memory.Common.{Env, Result, ok, err}
use tekes_memory.Common.Strict.{decode_response}
use tekes_memory.Common.Text.{unix_lines, split_blank}
use tekes_memory.Server.Http.{pass, pass-injective, bind-pass, reject_if-pass, need-pass}
use tekes_memory.Server.Guard.{plain}
use tekes_memory.Server.Finish.{
  decoded, frame_data, is_answer, read_frame, read_frames, terminal_of,
}

abbrev pub has_data : String → Bool
has_data f = not (frame_data f == "")

decoded-ok : (env : Env) (r : Result Value) (v : Value) → decoded env r ≡ pass v → r ≡ ok v
decoded-ok env (ok a) v h = ap ok (pass-injective a v h)
decoded-ok env (err e) v h = absurd (cc)

taken : (b : Bool) → not b ≡ false → b ≡ true
taken true h = refl
taken false h = absurd (cc)

same_answer : (v w : Value) → some v ≡ some w → w ≡ v
same_answer v w h = cc

module _ (env : Env) (request : Value) where
  -- A frame that is taken is the answer, and the first one.
  read_frame-answer :
      (text : String) (before after : Option Value)
      → read_frame env request text before ≡ pass after
      → (v : Value) × (after ≡ some v)
        × ((decode_response env.parse_tree text ≡ ok v)
            × ((is_answer request v ≡ true) × (is_some before ≡ false)))
  unfolding read_frame
  read_frame-answer text before after h =
      let (v, e1, h1) = bind-pass (decoded env (decode_response env.parse_tree text)) _ after h in
      let (answer, h2) = reject_if-pass (not (is_answer request v)) (plain env 500) _ after h1 in
      let (first, h3) = reject_if-pass (is_some before) (plain env 500) _ after h2 in
      (v, sym (pass-injective _ after h3), (decoded-ok env _ v e1, (taken _ answer, first)))

  -- After the answer no frame has data.
  read_frames-rest :
      (fs : List String) (x : Value) (after : Option Value)
      → read_frames env request fs (some x) ≡ pass after
      → (select has_data fs ≡ []) × (after ≡ some x)
  unfolding read_frames select
  read_frames-rest [] x after h = (refl, sym (pass-injective (some x) after h))
  read_frames-rest (f ∷ fs) x after h = elim (Bool-cases (frame_data f == "")) [
    | inl empty ↦
        rw empty (read_frames-rest fs x after (sym (if_true (frame_data f == "") _ _ empty) ∙ h))
    | inr full ↦
        let (t, e, h1) =
          bind-pass (read_frame env request (frame_data f) (some x)) _ after
            (sym (if_false (frame_data f == "") _ _ full) ∙ h) in
        let (v, same, (read, (answer, first))) = read_frame-answer (frame_data f) (some x) t e in
        absurd (cc)
  ]

  read_frames-one :
      (fs : List String) (v : Value)
      → read_frames env request fs none ≡ pass (some v)
      → (f : String) × (select has_data fs ≡ f ∷ [])
        × ((decode_response env.parse_tree (frame_data f) ≡ ok v) × (is_answer request v ≡ true))
  unfolding read_frames select
  read_frames-one [] v h = absurd (cc)
  read_frames-one (f ∷ fs) v h = elim (Bool-cases (frame_data f == "")) [
    | inl empty ↦ rw empty (read_frames-one fs v (sym (if_true (frame_data f == "") _ _ empty) ∙ h))
    | inr full ↦
        let (t, e, h1) =
          bind-pass (read_frame env request (frame_data f) none) _ (some v)
            (sym (if_false (frame_data f == "") _ _ full) ∙ h) in
        let (w, same, (read, (answer, first))) = read_frame-answer (frame_data f) none t e in
        let (none_left, found) =
          read_frames-rest fs w (some v)
            (subst (λ x. read_frames env request fs x ≡ pass (some v)) same h1) in
        (
          f,
          rw full (ap (λ xs. f ∷ xs) none_left),
          subst
              (λ x.
                (decode_response env.parse_tree (frame_data f) ≡ ok x)
                × (is_answer request x ≡ true))
              (same_answer v w found) (read, answer),
        )
  ]

  -- A stream of events that becomes a response has one frame with data, no more and no fewer: it is
  -- decoded to the answer, which has the id of the request and a result or an error.
  pub terminal_of-one :
      (raw : String) (v : Value)
      → terminal_of env request raw ≡ pass v
      → (f : String) × (select has_data (split_blank (unix_lines raw)) ≡ f ∷ [])
        × ((decode_response env.parse_tree (frame_data f) ≡ ok v) × (is_answer request v ≡ true))
  unfolding terminal_of
  terminal_of-one raw v h =
      let (t, e, h1) =
        bind-pass (read_frames env request (split_blank (unix_lines raw)) none) _ v h in
      read_frames-one (split_blank (unix_lines raw)) v (
        subst (λ x. read_frames env request (split_blank (unix_lines raw)) none ≡ pass x)
          (need-pass t (plain env 500) v h1) e)
