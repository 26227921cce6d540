-- ===== src/Lib.antt =====
-- tscp-anchor: proofs of computation over a trace, from the transition kernel that writes receipts to
-- the sumcheck and FRI arguments and the server that ships them.
--
-- The parts, the files that model them, and the code they follow:
--   Field: the interface of `p3_field`, a parameter with its documented laws (Field/Five is the
--     field of the examples, Field/Ring a solver for ring identities).
--   Oracle: `MleOracle`, `ColumnOracle`, `evaluate_mle` of crates/oracle-layer/src/oracle.rs.
--     Oracle/Mle binds a table one variable at a time; Oracle/Cube sums over corners;
--     Oracle/Corner evaluates at them.
--   Sumcheck: `sumcheck_round` and `verify_sumcheck` of crates/oracle-layer/src/sumcheck.rs, with the
--     prover that its tests drive. Sumcheck/Round, Complete and Sound are about the two.
--   Constraint: crates/oracle-layer/src/constraint and constraint_oracle.rs.
--   Folded: `FoldedOracleBuilder` and `FoldedOracle` of crates/oracle-layer/src/folded.rs.
--   Merkle: crates/oracle-layer/src/merkle.rs over an `Mmcs`; Fri: fri.rs, with Fri/Poly on the
--     evaluations of a polynomial; FriProtocol: the commit phase, fri_protocol.rs; FriQuery:
--     `fri_prove` and `fri_verify`, fri_query.rs, with FriQuery/Folds on the evaluations of a
--     polynomial, and FriQuery/Forgery on openings that are not at the query's leaf.
--   Kernel: events, `dispatch_event` and `ReplayEngine` of crates/tscp-kernel/src, and the producer
--     of crates/tscp-cli/src/main.rs (Kernel/Produce, and its commands in Kernel/Cli).
--   ProofEnvelope: crates/tscp-protocol/src/proof_envelope.rs.
--   ProverServer: `prove_handler` of crates/prover-server/src/main.rs, with ProverServer/Shipped on what a
--     success response tells its client; Admission: the semaphore, the guard and the agent of
--     crates/prover-server/src/edia/mod.rs, with the agent's mutex, which a request awaits twice, and the
--     requests dropped there when their client goes away. Admission/Finish is on how requests end.
--   Owsl: the entropy gate, crates/prover-server/src/owsl_bridge.rs, over a `Platform`;
--     Owsl/Publish: `publish_status_atomic`, the calls of one process as steps in any order. The
--     file system completes a call, fails it, or has written some bytes; no other program writes the
--     same paths. Alone, Whole, Published and Publishers are about them.
--   OracleBridge: the canonical bytes of crates/tscp-verifier/src/oracle_bridge.rs;
--     OracleBridge/Instrumented: its timed calls of the prover and the verifier.
--   Timing, Artifact, Provenance, Emitter: timing.rs, artifact.rs, provenance.rs and emitter.rs of
--     crates/tscp-verifier/src, from a timed proof to the text of its artifact.
--   Quotient: crates/oracle-layer/src/quotient.rs; Poly: the divisions of poly.rs.
--   Fft: crates/oracle-layer/src/fft.rs, loop by loop. Fft/Permute is about the bit reversal,
--     Pairs, Butterfly, Stages and Rounds about the stages, Sums and Inverse about the inverse.
--   DeepAli: the soundness accumulator and the division of `compute_single_quotient` of
--     crates/prover-server/src/deep_ali.rs; DeepQuotient: `compute_single_quotient` and
--     `compute_deep_quotient` there; DeepVerify: `TraceEvaluator` and
--     `verify_deep_batch`, which nothing calls yet; DeepAliFri: deep_ali_fri.rs, which hands their result to FRI.
--   Prelude: shared names, tests, lists, `usize` arithmetic (Bits), bytes (Bytes), strings (Text),
--     decimals (Decimal).
--   Examples: the theorems at concrete inputs.
--
-- How the code is read. A function that may panic returns an `Option`, `none` being the panic (an
-- assertion, an index out of range, a shift by 64 or more, the inverse of zero); errors are values
-- of a result type of the component. `usize` and `u64` are natural numbers with their bounds written
-- out where the code adds, shifts or narrows. Loops are structural recursion on a count or on the
-- list that the code walks. The `while` loops of the FFT take fuel, one more than the length, and
-- their theorems show that it is enough; `next_power_of_two` doubles at most as often as its argument.
--
-- Parameters, each the documented interface of a crate outside the repository: the field and its
-- canonical representatives (`Field`, `PrimeField32`), the Merkle commitment (`Mmcs`: an opening of a
-- committed column verifies), the Fiat-Shamir transcript (`Challenger`), BLAKE3, the CBOR codec
-- (what is encoded decodes to itself), the JSON encoder,
-- what the entropy gate reads with (`Platform`), and what the emitter
-- takes from outside (`Clock`, `Host`, `Services`). The k-th reading of a clock in a run is `readings k`.
--
-- Not modelled: sockets, clocks, CBOR and JSON; files but for the status that OWSL publishes, the
-- events of the command line and the repository's HEAD; poly_ir.rs, a schema check that only its
-- tests call; telemetry; the wrappers of Plonky3's DFT; peak memory on macOS.
pub mod Prelude
pub mod Field
pub mod Oracle
pub mod Sumcheck
pub mod Timing
pub mod Provenance
pub mod Artifact
pub mod Emitter
pub mod Merkle
pub mod Fri
pub mod FriProtocol
pub mod FriQuery
pub mod Kernel
pub mod ProofEnvelope
pub mod Constraint
pub mod Folded
pub mod ProverServer
pub mod Admission
pub mod OracleBridge
pub mod Quotient
pub mod Poly
pub mod Fft
pub mod Owsl
pub mod DeepAli
pub mod DeepAliFri
pub mod DeepQuotient
pub mod DeepVerify
pub mod Examples
