-- ===== src/Replay/Rejects.antt =====
-- src/trace/replay.c: which files `gth_replay_count_records` accepts.
use gthreads.Base.{
  ℕ, zero, suc, ◌+◌, ◌-◌, ◌*◌, ◌/◌, ◌<◌, ◌≤◌, ◌≡◌, ◌≢◌, refl, subst, List, true, arith, length, ltb,
  if-cases, ℕ_discrete,
}
use gthreads.Trace.Format.{decode, decode_header, validate_record, header_size}
use gthreads.Replay.Events.{record_bytes, records_valid, count_records, validate_header}

-- The loop accepts only when every record that it looks at has the right checksum.
records_valid_lem :
    (bytes : List ℕ) (i n : ℕ)
    → records_valid bytes i n ≡ true
    → (j : ℕ) → i ≤ j
    → j < i + n
    → validate_record (decode (record_bytes bytes j)) ≡ true
unfolding records_valid
records_valid_lem bytes i zero h j lo hi = absurd (omega arith)
records_valid_lem bytes i (suc n) h j lo hi =
    let here : validate_record (decode (record_bytes bytes i)) ≡ true = ground (arith, h) in
    let later : records_valid bytes (i + 1) n ≡ true = ground (arith, h) in
    elim (ℕ_discrete i j) [
      | yes e ↦ subst (λ k. validate_record (decode (record_bytes bytes k)) ≡ true) e here
      | no ne ↦ records_valid_lem bytes (i + 1) n later j (omega (arith, ne)) (omega arith)
    ]

-- A trace file that the replay takes.
pub record IsTraceFile (bytes : List ℕ) (n : ℕ) : Type 0 where
  pub header : validate_header (decode_header bytes) ≡ true
  pub size : 32 + n * 32 ≤ length bytes
  pub rest : length bytes < 32 + n * 32 + 32
  pub valid : (j : ℕ) → j < n → validate_record (decode (record_bytes bytes j)) ≡ true

-- `gth_replay_count_records` counts records only in a file with the header of a trace, in which
-- every whole record has the right checksum, and it counts all of them: a file with another header
-- or with one damaged record is refused.
pub count_records-IsTraceFile :
    (bytes : List ℕ) → count_records bytes ≢ 0 → IsTraceFile bytes (count_records bytes)
unfolding count_records
count_records-IsTraceFile bytes =
    let n = (length bytes - 32) / 32 in
    let P : ℕ → Type 0 = λ k. k ≢ 0 → IsTraceFile bytes k in
    if-cases P (ltb (length bytes) header_size) (λ h e. absurd (e refl))
      (λ long.
        if-cases P (validate_header (decode_header bytes))
          (λ header.
            if-cases P (records_valid bytes 0 n)
              (λ valid e. record {
                header = header;
                size = ground (arith, long);
                rest = ground (arith, long);
                valid = λ j h. records_valid_lem bytes 0 n valid j (omega arith) (omega arith);
              })
              (λ damaged e. absurd (e refl)))
          (λ other e. absurd (e refl)))
