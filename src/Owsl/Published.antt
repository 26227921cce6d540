-- ===== src/Owsl/Published.antt =====
-- The steps of `publish_status_atomic` of crates/prover-server/src/owsl_bridge.rs, each from a process
-- with its temporary files whole.
use mathlib.Core.Path.{subst}
use tscp_anchor.Prelude.{
  ℕ, ◌^◌, ◌<◌, ◌≡◌, refl, sym, ap, ◌∙◌, inl, inr, some, Bool-cases, eq_of_some, arith,
}
use tscp_anchor.Prelude.Bytes.{Bytes, bytes_eq, bytes_eq_sound}
use tscp_anchor.Owsl.{StatusFile, missing, contents}
use tscp_anchor.Owsl.Publish.{
  Publication, ok, Phase, writing, renaming, returned, set_file, tmp_name, Process,
}
use tscp_anchor.Owsl.Alone.{set_file-same, set_file-other}
use tscp_anchor.Owsl.Whole.{
  tmp_name-injective, IsTarget, suffix_of, Published, IsWhole, with_call, Fits-IsWhole,
}

module _ (id : ℕ) (IsAllowed : Publication → Type 0) (files : Bytes → StatusFile) where
  -- A step that leaves the files as they are.
  pub same_files :
      (n : ℕ) (p : Process) (i : ℕ) (call : Publication) (phase phase' : Phase)
      → IsWhole id IsAllowed files n p
      → p.calls i ≡ some (call, phase)
      → ((k : ℕ) → suffix_of phase' ≡ some k → suffix_of phase ≡ some k)
      → ((k : ℕ) → phase' ≡ renaming k → phase ≡ renaming k)
      → IsWhole id IsAllowed files n (with_call id IsAllowed files p i p.shared call phase')
  same_files n p i call phase phase' w h keeps renames =
      Fits-IsWhole id IsAllowed files n n p i (suffix_of phase) call p.shared phase' w (record {
        counts = w.counter;
        grows = omega arith;
        is_allowed = w.allowed i call phase h;
        holder =
            λ j k call1 phase1 ne h1 s s1. ne (w.apart j i k call1 call phase1 phase h1 h s1 s);
        number = λ k s. inl (keeps k s, w.below i call phase k h (keeps k s));
        written = λ k e. w.ready i k call (h ∙ ap (λ t. some (call, t)) (renames k e));
        others = λ k path less ne. refl;
        still = w.whole;
      })

  -- A step that writes the temporary file of a call.
  pub temporary_file :
      (n k : ℕ) (p : Process) (i : ℕ) (call : Publication) (phase : Phase) (text : Bytes)
      → n < 2 ^ 64
      → IsWhole id IsAllowed files n p
      → p.calls i ≡ some (call, writing k)
      → suffix_of phase ≡ some k
      → ((m : ℕ) → phase ≡ renaming m → text ≡ call.json)
      → IsWhole id IsAllowed files n (
          with_call id IsAllowed files p i
            (record {
              files = set_file p.shared.files (tmp_name id call.path k) (contents text);
              tmp_counter = p.shared.tmp_counter;
            })
            call
            phase)
  temporary_file n k p i call phase text small w h s complete =
      Fits-IsWhole id IsAllowed files n n p i (some k) call _ phase w (record {
        counts = w.counter;
        grows = omega arith;
        is_allowed = w.allowed i call (writing k) h;
        holder = λ j k1 call1 phase1 ne h1 s0 s1.
            ne (w.apart j i k1 call1 call phase1 (writing k) h1 h s1 s0);
        number = λ m sm. inl (sym s ∙ sm, w.below i call (writing k) m h (sym s ∙ sm));
        written = λ m e.
            ap
              (λ t.
                set_file p.shared.files (tmp_name id call.path k) (contents text)
                  (tmp_name id call.path t))
              (eq_of_some (sym (ap suffix_of e) ∙ s))
            ∙ set_file-same p.shared.files (tmp_name id call.path k) (contents text)
            ∙ ap contents (complete m e);
        others = λ m path less ne.
            set_file-other p.shared.files (tmp_name id call.path k) (tmp_name id path m)
              (contents text)
              (λ e. ne (
                ap some (
                  tmp_name-injective id call.path path k m
                    (omega (arith, small, w.below i call (writing k) k h refl))
                    (omega (arith, small, less)) (sym e))));
        still = λ q target.
            subst (Published id IsAllowed files q)
              (sym (
                set_file-other p.shared.files (tmp_name id call.path k) q (contents text)
                  (target call.path k)))
              (w.whole q target);
      })

  -- The step that renames the temporary file.
  pub renamed :
      (n k : ℕ) (p : Process) (i : ℕ) (call : Publication)
      → n < 2 ^ 64
      → IsTarget id call.path
      → IsWhole id IsAllowed files n p
      → p.calls i ≡ some (call, renaming k)
      → IsWhole id IsAllowed files n (
          with_call id IsAllowed files p i
            (record {
              files =
                  set_file
                    (set_file p.shared.files (tmp_name id call.path k) missing)
                    call.path
                    (contents call.json);
              tmp_counter = p.shared.tmp_counter;
            })
            call
            (returned ok))
  renamed n k p i call small target w h =
      Fits-IsWhole id IsAllowed files n n p i (some k) call _ (returned ok) w (record {
        counts = w.counter;
        grows = omega arith;
        is_allowed = w.allowed i call (renaming k) h;
        holder = λ j k1 call1 phase1 ne h1 s0 s1.
            ne (w.apart j i k1 call1 call phase1 (renaming k) h1 h s1 s0);
        number = λ m s. absurd cc;
        written = λ m e. absurd cc;
        others = λ m path less ne.
            set_file-other (set_file p.shared.files (tmp_name id call.path k) missing) call.path
              (tmp_name id path m) (contents call.json) (λ e. target path m (sym e))
            ∙ set_file-other p.shared.files (tmp_name id call.path k) (tmp_name id path m) missing
                (λ e. ne (
                  ap some (
                    tmp_name-injective id call.path path k m
                      (omega (arith, small, w.below i call (renaming k) k h refl))
                      (omega (arith, small, less)) (sym e))));
        still = λ q is_target. still q is_target;
      })
    where
      still :
          (q : Bytes)
          → IsTarget id q
          → Published id IsAllowed files q (
              set_file
                (set_file p.shared.files (tmp_name id call.path k) missing)
                call.path
                (contents call.json)
                q)
      still q is_target = elim (Bool-cases (bytes_eq q call.path)) [
        | inl same ↦ inr (
          call,
          w.allowed i call (renaming k) h,
          sym (bytes_eq_sound q call.path same),
          rw same refl,
        )
        | inr differs ↦ rw differs (
            subst (Published id IsAllowed files q)
              (sym (
                set_file-other p.shared.files (tmp_name id call.path k) q missing
                  (is_target call.path k)))
              (w.whole q is_target))
      ]
