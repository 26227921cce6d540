-- ===== src/Owsl/Publishers.antt =====
-- The publications of crates/prover-server/src/owsl_bridge.rs by one process, interleaved, and the
-- gate that reads what they publish.
use mathlib.Core.Path.{subst}
use tscp_anchor.Prelude.{
  ℕ, ◌+◌, ◌^◌, ◌<◌, ◌≡◌, refl, sym, ap, ◌∙◌, inl, inr, Bool, some, none, take, Bool-cases, ◌%◌,
  eq_of_some, arith,
}
use tscp_anchor.Prelude.Bytes.{Bytes}
use tscp_anchor.Owsl.{
  Platform, StatusFile, contents, with_path, read_status, read_file, permits_result,
  permits_verification, owsl_permits_verification_at_path,
}
use tscp_anchor.Owsl.Publish.{
  Publication, err, Phase, creating, numbering, writing, renaming, returned, Answer, done, failed,
  partial, create_status_dir, write_temp_file, atomically_publish, tmp_name, rename, enter, advance,
  Process, taken, Step, begin, go_on, Reach, first, next,
}
use tscp_anchor.Owsl.Whole.{IsTarget, suffix_of, IsWhole, with_call, Fits-IsWhole}
use tscp_anchor.Owsl.Published.{same_files, temporary_file, renamed}

enter-suffix :
    (has_parent : Bytes → Bool) (call : Publication) → suffix_of (enter has_parent call) ≡ none
unfolding enter
enter-suffix has_parent call = elim (Bool-cases (has_parent call.path)) [
  | inl parent ↦ rw parent refl
  | inr bare ↦ rw bare refl
]

module _ (id : ℕ) (IsAllowed : Publication → Type 0) (files : Bytes → StatusFile) where
  begun :
      (n : ℕ) (p : Process) (i : ℕ) (call : Publication) (phase : Phase)
      → IsAllowed call
      → suffix_of phase ≡ none
      → IsWhole id IsAllowed files n p
      → IsWhole id IsAllowed files (0 + n) (with_call id IsAllowed files p i p.shared call phase)
  begun n p i call phase a s w =
      Fits-IsWhole id IsAllowed files n (0 + n) p i none call p.shared phase w (record {
        counts = w.counter ∙ omega arith;
        grows = omega arith;
        is_allowed = a;
        holder = λ j k call1 phase1 ne h1 s0 s1. cc;
        number = λ k sk. absurd (let e : none ≡ some k = sym s ∙ sk in cc);
        written = λ k e. absurd (let e : none ≡ some k = sym s ∙ ap suffix_of e in cc);
        others = λ k path less ne. refl;
        still = w.whole;
      })

  numbered :
      (n : ℕ) (p : Process) (i : ℕ) (call : Publication)
      → 1 + n < 2 ^ 64
      → p.calls i ≡ some (call, numbering)
      → IsWhole id IsAllowed files n p
      → IsWhole id IsAllowed files (1 + n) (
          with_call id IsAllowed files p i
            (record {
              files = (p.shared).files;
              tmp_counter = ((p.shared).tmp_counter + 1) % 2 ^ 64;
            })
            call
            (writing (p.shared).tmp_counter))
  numbered n p i call small h w =
      Fits-IsWhole id IsAllowed files n (1 + n) p i none call _ _ w (record {
        counts = omega (arith, w.counter, small);
        grows = omega arith;
        is_allowed = w.allowed i call numbering h;
        holder = λ j k call1 phase1 ne h1 s0 s1. cc;
        number = λ k s. inr (sym (eq_of_some s) ∙ w.counter, omega arith);
        written = λ k e. absurd cc;
        others = λ k path less ne. refl;
        still = w.whole;
      })

  none_taken :
      {n : ℕ} {p : Process} → IsWhole id IsAllowed files n p → IsWhole id IsAllowed files (0 + n) p
  none_taken {n} {p} = subst (λ k. IsWhole id IsAllowed files k p) {x = n} {y = 0 + n} (omega arith)

  rename-IsWhole :
      (n k : ℕ) (p : Process) (i : ℕ) (call : Publication) (file : StatusFile)
      → n < 2 ^ 64
      → IsTarget id call.path
      → p.calls i ≡ some (call, renaming k)
      → file ≡ contents call.json
      → IsWhole id IsAllowed files n p
      → IsWhole id IsAllowed files n (
          with_call id IsAllowed files p i
            (rename (tmp_name id call.path k) call.path p.shared file).0
            call
            (rename (tmp_name id call.path k) call.path p.shared file).1)
  unfolding rename
  rename-IsWhole n k p i call file small target h e w =
      rw e (renamed id IsAllowed files n k p i call small target w h)

  advance-IsWhole :
      (n : ℕ) (p : Process) (i : ℕ) (call : Publication) (phase : Phase) (answer : Answer)
      → ((c : Publication) → IsAllowed c → IsTarget id c.path)
      → taken phase + n < 2 ^ 64
      → p.calls i ≡ some (call, phase)
      → IsWhole id IsAllowed files n p
      → IsWhole id IsAllowed files (taken phase + n) (
          with_call id IsAllowed files p i
            (advance id call phase answer p.shared).0
            call
            (advance id call phase answer p.shared).1)
  unfolding advance taken
  advance-IsWhole n p i call creating done t small h w = none_taken (
      same_files id IsAllowed files n p i call creating numbering w h (λ k s. cc)
        (λ k e. absurd cc))
  advance-IsWhole n p i call creating failed t small h w = none_taken (
      same_files id IsAllowed files n p i call creating (returned (err create_status_dir)) w h
        (λ k s. cc) (λ k e. absurd cc))
  advance-IsWhole n p i call creating (partial m) t small h w =
      none_taken
        (same_files id IsAllowed files n p i call creating creating w h (λ k s. s) (λ k e. e))
  advance-IsWhole n p i call numbering answer t small h w = numbered n p i call small h w
  advance-IsWhole n p i call (writing k) done t small h w = none_taken (
      temporary_file id IsAllowed files n k p i call (renaming k) call.json (omega (arith, small)) w
        h refl (λ m e. refl))
  advance-IsWhole n p i call (writing k) failed t small h w = none_taken (
      same_files id IsAllowed files n p i call (writing k) (returned (err write_temp_file)) w h
        (λ k s. cc) (λ k e. absurd cc))
  advance-IsWhole n p i call (writing k) (partial m) t small h w = none_taken (
      temporary_file id IsAllowed files n k p i call (writing k) (take m call.json)
        (omega (arith, small)) w h refl (λ m e. absurd cc))
  advance-IsWhole n p i call (renaming k) done t small h w = none_taken (
      rename-IsWhole n k p i call _ (omega (arith, small)) (t call (w.allowed i call _ h)) h
        (w.ready i k call h) w)
  advance-IsWhole n p i call (renaming k) failed t small h w = none_taken (
      same_files id IsAllowed files n p i call (renaming k) (returned (err atomically_publish)) w h
        (λ k s. cc) (λ k e. absurd cc))
  advance-IsWhole n p i call (renaming k) (partial m) t small h w =
      none_taken (
        same_files id IsAllowed files n p i call (renaming k) (renaming k) w h (λ k s. s)
          (λ k e. e))
  advance-IsWhole n p i call (returned r) answer t small h w =
      none_taken (
        same_files id IsAllowed files n p i call (returned r) (returned r) w h (λ k s. s)
          (λ k e. e))

  Step-IsWhole :
      (has_parent : Bytes → Bool) (n k : ℕ) (p q : Process)
      → ((c : Publication) → IsAllowed c → IsTarget id c.path)
      → Step has_parent id IsAllowed p k q
      → k + n < 2 ^ 64
      → IsWhole id IsAllowed files n p
      → IsWhole id IsAllowed files (k + n) q
  Step-IsWhole has_parent n k p q t (begin i call free a) small w =
      begun n p i call (enter has_parent call) a (enter-suffix has_parent call) w
  Step-IsWhole has_parent n k p q t (go_on i call phase answer h) small w =
      advance-IsWhole n p i call phase answer t small h w

  Reach-IsWhole :
      (has_parent : Bytes → Bool) (n : ℕ) (p : Process)
      → ((c : Publication) → IsAllowed c → IsTarget id c.path)
      → Reach has_parent id IsAllowed files n p
      → n < 2 ^ 64
      → IsWhole id IsAllowed files n p
  Reach-IsWhole has_parent n p t first small = record {
    counter = refl;
    allowed = λ i call phase h. absurd cc;
    below = λ i call phase k h. absurd cc;
    apart = λ i j k call call' phase phase' h. absurd cc;
    ready = λ i k call h. absurd cc;
    whole = λ q target. inl refl;
  }
  Reach-IsWhole has_parent n p t (next {n = m} {k} {p = before} r st) small =
      Step-IsWhole has_parent m k before p t st small
        (Reach-IsWhole has_parent m before t r (omega (arith, small)))

  module _ {F64 : Type 0} (platform : Platform F64) where
    -- What a reader at a path meets: the file as it was at first, or the whole of an allowed
    -- publication, and the gate's verdict on that.
    pub data Meets (p : Process) (now : F64) (q : Bytes) : Type 0 where
      untouched :
          (p.shared).files q ≡ files q
          → owsl_permits_verification_at_path platform (p.shared).files now q
            ≡ owsl_permits_verification_at_path platform files now q
          → Meets p now q
      published :
          (call : Publication)
          → IsAllowed call
          → call.path ≡ q
          → (p.shared).files q ≡ contents call.json
          → owsl_permits_verification_at_path platform (p.shared).files now q
            ≡ permits_result platform (read_file platform now (with_path q) (contents call.json)).1
          → Meets p now q

    verdict :
        (files1 : Bytes → StatusFile) (now : F64) (q : Bytes) (file : StatusFile)
        → files1 q ≡ file
        → owsl_permits_verification_at_path platform files1 now q
          ≡ permits_result platform (read_file platform now (with_path q) file).1
    unfolding owsl_permits_verification_at_path permits_verification read_status with_path
    verdict files1 now q file e =
        ap (λ f. permits_result platform (read_file platform now (with_path q) f).1) e

    -- However the calls of a process interleave, fail or stop midway, with fewer than 2^64 numbers
    -- taken and no temporary name among the targets, a reader at a target meets the file as it was
    -- at first or the whole of what one call publishes there, and the gate decides on that.
    pub Reach-Meets :
        (has_parent : Bytes → Bool) (n : ℕ) (p : Process) (now : F64) (q : Bytes)
        → ((c : Publication) → IsAllowed c → IsTarget id c.path)
        → n < 2 ^ 64
        → IsTarget id q
        → Reach has_parent id IsAllowed files n p
        → Meets p now q
    Reach-Meets has_parent n p now q t small target r =
        elim ((Reach-IsWhole has_parent n p t r small).whole q target) [
          | inl same ↦ untouched same (
              verdict (p.shared).files now q (files q) same
              ∙ sym (verdict files now q (files q) refl))
          | inr (call, a, there, file) ↦
              published call a there file (verdict (p.shared).files now q (contents call.json) file)
        ]
