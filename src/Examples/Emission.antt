-- ===== src/Examples/Emission.antt =====
-- The phase timer, the bridge and the emitter at concrete inputs: a clock that counts, a host with a
-- repository, and a commitment that is the column itself as its only digest.
use tscp_anchor.Prelude.{
  ℕ, ◌+◌, ◌-◌, ◌*◌, ◌%◌, ◌≡◌, refl, Bool, true, false, ◌&&◌, Option, some, none, List, [], ◌∷◌,
  ◌++◌, length, get_or, ◌==◌, ==_refl, if◌then◌else◌, arith,
}
use tscp_anchor.Prelude.Bytes.{Bytes, bytes_eq}
use tscp_anchor.Prelude.Text.{Text, codes, text_eq, as_bytes, len, encode_utf8, is_whitespace}
use tscp_anchor.Field.Five.{Five, e0, val, of_residue, same, five, five_prime}
use tscp_anchor.Merkle.{Mmcs}
use tscp_anchor.FriProtocol.{Challenger}
use tscp_anchor.FriQuery.{FriProof, fri_prove}
use tscp_anchor.FriQuery.Accept.{fri_verify-fri_prove}
use tscp_anchor.Timing
use tscp_anchor.Timing.{Clock, PhaseTimer, new, start, stop, set, merge, get}
use tscp_anchor.Timing.Phases.{created, was_set, or_else, get-merge}
use tscp_anchor.Provenance.{
  Host, with_separator, join, git_dir, repo_commit, binary_digest, sha256_hex,
}
use tscp_anchor.Provenance.Commit.{is_solid_sound, repo_commit_loose}
use tscp_anchor.Artifact.{end_to_end, Telemetry}
use tscp_anchor.OracleBridge
use tscp_anchor.OracleBridge.{as_u32, serialize_run}
use tscp_anchor.OracleBridge.Indices.{Asked, fri_prove-Asked}
use tscp_anchor.Emitter.{Services, EmitResult, EmitterConfig, ok, prove_and_emit}
use tscp_anchor.Emitter.Pipeline.{Emitted, prove_and_emit-Emitted}
use tscp_anchor.Examples.{
  table, same_column, same_refl, same_column_refl, get_or-some, roots_of_unity, two_ne_zero,
  roots_of_unity-NonZero,
}

abbrev clock : Clock ℕ ℕ
clock = record { elapsed_ms = λ began now. now - began; zero_ms = 0; add_ms = λ a b. a + b }

abbrev first_column : List (List Five) → List Five
first_column [] = []
first_column (column ∷ more) = column

abbrev same_columns : List (List Five) → List (List Five) → Bool
same_columns [] [] = true
same_columns (a ∷ as') (b ∷ bs) = same_column a b && same_columns as' bs
same_columns _ _ = false

same_columns_refl : (c : List (List Five)) → same_columns c c ≡ true
same_columns_refl [] = refl
same_columns_refl (a ∷ c) = rw (same_column_refl a, same_columns_refl c)

abbrev mmcs : Mmcs Five (List (List Five)) (List (List Five))
mmcs = record {
  commit_vec = λ leaves. leaves ∷ [];
  open_batch = λ i leaves. (get_or leaves i e0, []);
  verify_batch = λ c height i v _.
      (length (first_column c) == height) && same (get_or (first_column c) i e0) v;
  commitment_eq = same_columns;
  open_batch-value = get_or-some;
  verify-open_batch = λ leaves i h. rw (==_refl (length leaves), same_refl (get_or leaves i e0));
  commitment_eq_refl = same_columns_refl;
}

abbrev challenger : Challenger Five (List (List Five)) ℕ
challenger = record {
  observe = λ s a. 5 * s + val a;
  observe_commitment = λ s c. s + length c;
  sample = λ s. (of_residue (s % 5), s + 1);
}

abbrev commit : Text
commit = codes "0123456789abcdef0123456789abcdef01234567"

-- A repository at "/r" whose HEAD names a branch.
abbrev files : Text → Option Text
files path =
    if text_eq path (codes "/r/.git/HEAD")
    then some (codes "ref: refs/heads/main\n")
    else if text_eq path (codes "/r/.git/refs/heads/main")
    then some (commit ++ codes "\n")
    else none

abbrev host : Host
host = record {
  sha256 = λ bytes. bytes;
  read_to_string = files;
  read = λ path. some (1 ∷ 2 ∷ 3 ∷ []);
  current_exe = some (codes "/bin/tscp");
  file_len = λ path. some 3;
}

abbrev services : Services ℕ
services = record {
  host = host;
  new_v4 = codes "id";
  now = codes "now";
  to_string = λ a. some (a.artifact_id ++ (a.provenance).proof_digest);
}

abbrev config : EmitterConfig
config = record {
  manifest_sha256 = codes "00";
  repo_path = codes "/r";
  layer = end_to_end;
  trace_size = 4;
}

abbrev telemetry : Telemetry
telemetry = record {
  peak_rss_kb = 100;
  proof_size_bytes = 0;
  transcript_size_bytes = 0;
  binary_size_bytes = none;
}

abbrev earlier : PhaseTimer ℕ ℕ
earlier = set Timing.fri 3 (set Timing.sumcheck 7 new)

abbrev later : PhaseTimer ℕ ℕ
later = set Timing.fri 5 new

get-merge_example :
    get (merge earlier later) Timing.fri ≡ or_else (get later Timing.fri) (get earlier Timing.fri)
get-merge_example =
    get-merge {clock = clock} earlier later (was_set Timing.fri 5 created) Timing.fri

head_read :
    files (join (git_dir (codes "/r")) (codes "HEAD")) ≡ some (codes "ref: refs/heads/main\n")
unfolding with_separator join git_dir bytes_eq
head_read = refl

branch_read :
    files (join (git_dir (codes "/r")) (codes "refs/heads/main")) ≡ some (commit ++ codes "\n")
unfolding with_separator join git_dir bytes_eq
branch_read = refl

commit_size : len commit ≡ 40
unfolding len as_bytes encode_utf8
commit_size = refl

repo_commit_loose_example : repo_commit host (codes "/r") ≡ commit
unfolding is_whitespace
repo_commit_loose_example =
    repo_commit_loose host (codes "/r") (codes "refs/heads/main") commit (omega arith)
      (is_solid_sound (codes "refs/heads/main") refl) (is_solid_sound commit refl) commit_size
      head_read branch_read

-- A timer whose phases all have a time, each another one.
abbrev timed : PhaseTimer ℕ ℕ
timed = record {
  phases =
      (Timing.proving_total, 50)
      ∷ (Timing.transcript_generation, 3)
      ∷ (Timing.sumcheck, 4)
      ∷ (Timing.fri, 40)
      ∷ (Timing.verification, 6)
      ∷ [];
  active = [];
}

executable : binary_digest host ≡ some (1 ∷ 2 ∷ 3 ∷ [])
unfolding binary_digest sha256_hex
executable = refl

prove_and_emit-Emitted_example :
    (proof : FriProof Five (List (List Five)) (List (List Five))) × (after : ℕ) × (fri_prove mmcs
        challenger table roots_of_unity 0 3
      ≡ some (proof, after))
    × (bytes : Bytes × Bytes) × (serialize_run proof ≡ OracleBridge.ok bytes)
    × (r : EmitResult) × (prove_and_emit services clock
          (λ k. k)
          mmcs
          challenger
          0
          config
          table
          roots_of_unity
          3
        ≡ some (ok r))
    × Emitted services clock (λ k. k) (as_u32 (length proof.commitment.roots)) bytes.0 r
prove_and_emit-Emitted_example =
    prove_and_emit-Emitted services clock (λ k. k) (1 ∷ 2 ∷ 3 ∷ []) executable
      (λ a. (a.artifact_id ++ (a.provenance).proof_digest, refl)) mmcs challenger 0 config 1 table
      roots_of_unity 3 two_ne_zero roots_of_unity-NonZero refl refl (omega arith)

fri_prove-Asked_example :
    let run =
      fri_verify-fri_prove mmcs challenger 1 table roots_of_unity 0 3 two_ne_zero
        roots_of_unity-NonZero refl refl in
    Asked 4 (run.0).query_indices (run.0).query_proofs
fri_prove-Asked_example =
    let run =
      fri_verify-fri_prove mmcs challenger 1 table roots_of_unity 0 3 two_ne_zero
        roots_of_unity-NonZero refl refl in
    fri_prove-Asked mmcs challenger table roots_of_unity 0 run.1 3 run.0 run.2
