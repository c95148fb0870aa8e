-- ===== src/Replay/Loaded.antt =====
-- src/trace/replay.c, src/trace/trace.c: the replay's reading of a file that holds a header and records.
use gthreads.Base.{
  ℕ, zero, suc, ◌+◌, ◌-◌, ◌*◌, ◌/◌, ◌<◌, ◌≤◌, ◌≡◌, refl, sym, ap, ◌∙◌, List, [], ◌∷◌, ◌++◌, true,
  false, arith, Option, length, length-append, take, drop, get_or, ltb,
}
use gthreads.State.{TraceRecord}
use gthreads.Trace.Format.{
  Header, encode, decode, encode_header, decode_header, validate_record, header_size,
}
use gthreads.Trace.Format.RoundTrip.{Fits, decode-encode, length-encode}
use gthreads.Trace.Session.{make_header}
use gthreads.Replay.Events.{record_bytes, records_valid, count_records, validate_header}

-- The bytes of records, one behind the other.
abbrev pub bytes_of : List TraceRecord → List ℕ
bytes_of [] = []
bytes_of (r ∷ rs) = encode r ++ bytes_of rs

-- A record whose fields fit their widths, with the right checksum.
pub record IsGood (r : TraceRecord) : Type 0 where
  pub fits : Fits r
  pub valid : validate_record r ≡ true

abbrev pub AllGood : List TraceRecord → Type 0
AllGood [] = Unit
AllGood (r ∷ rs) = IsGood r × AllGood rs

-- A file as `gth_trace_start` and the flushes write it.
abbrev pub file_of : Option ℕ → List TraceRecord → List ℕ
file_of now rs = encode_header (make_header now) ++ bytes_of rs

drop-append {ℓ} :
    {A : Type ℓ} (xs ys : List A) (k n : ℕ) → k ≡ length xs + n → drop k (xs ++ ys) ≡ drop n ys
drop-append [] ys k n e = ap (λ m. drop m ys) {x = k} {y = n} (omega arith)
drop-append (x ∷ xs) ys zero n e = absurd (omega arith)
drop-append (x ∷ xs) ys (suc k) n e = drop-append xs ys k n (omega arith)

take-append {ℓ} : {A : Type ℓ} (xs ys : List A) → take (length xs) (xs ++ ys) ≡ xs
take-append [] ys = refl
take-append (x ∷ xs) ys = ap (λ r. x ∷ r) (take-append xs ys)

length-encode_header : (h : Header) → length (encode_header h) ≡ 32
unfolding encode_header
length-encode_header h = refl

length-bytes_of : (rs : List TraceRecord) → length (bytes_of rs) ≡ length rs * 32
length-bytes_of [] = refl
length-bytes_of (r ∷ rs) =
    omega (arith, length-append (encode r) (bytes_of rs), length-encode r, length-bytes_of rs)

pub length-file_of :
    (now : Option ℕ) (rs : List TraceRecord) → length (file_of now rs) ≡ 32 + length rs * 32
length-file_of now rs = omega (
  arith,
  length-append (encode_header (make_header now)) (bytes_of rs),
  length-encode_header (make_header now),
  length-bytes_of rs,
)

-- The record at index `i`.
take-drop-bytes_of :
    (rs : List TraceRecord) (i : ℕ) (d : TraceRecord)
    → i < length rs
    → take 32 (drop (i * 32) (bytes_of rs)) ≡ encode (get_or rs i d)
take-drop-bytes_of [] i d h = absurd (omega arith)
take-drop-bytes_of (r ∷ rs) zero d h =
    ap (λ n. take n (bytes_of (r ∷ rs))) {y = length (encode r)} (sym (length-encode r))
    ∙ take-append (encode r) (bytes_of rs)
take-drop-bytes_of (r ∷ rs) (suc i) d h =
    ap (take 32)
      (drop-append (encode r) (bytes_of rs) (suc i * 32) (i * 32) (omega (arith, length-encode r)))
    ∙ take-drop-bytes_of rs i d (omega arith)

record_bytes-file_of :
    (now : Option ℕ) (rs : List TraceRecord) (i : ℕ) (d : TraceRecord)
    → i < length rs
    → record_bytes (file_of now rs) i ≡ encode (get_or rs i d)
record_bytes-file_of now rs i d h =
    let head = encode_header (make_header now) in
    ap (take 32) (
      drop-append head (bytes_of rs) (32 + i * 32) (i * 32)
        (omega (arith, length-encode_header (make_header now))))
    ∙ take-drop-bytes_of rs i d h

AllGood-get_or :
    (rs : List TraceRecord) (i : ℕ) (d : TraceRecord)
    → AllGood rs
    → i < length rs
    → IsGood (get_or rs i d)
AllGood-get_or [] i d g h = absurd (omega arith)
AllGood-get_or (r ∷ rs) zero d g h = g.0
AllGood-get_or (r ∷ rs) (suc i) d g h = AllGood-get_or rs i d g.1 (omega arith)

-- The record at `i` is read back as it was written.
pub decode-record_bytes :
    (now : Option ℕ) (rs : List TraceRecord) (i : ℕ) (d : TraceRecord)
    → AllGood rs
    → i < length rs
    → decode (record_bytes (file_of now rs) i) ≡ get_or rs i d
decode-record_bytes now rs i d g h =
    ap decode (record_bytes-file_of now rs i d h)
    ∙ decode-encode (get_or rs i d) (AllGood-get_or rs i d g h).fits

records_valid-file_of :
    (now : Option ℕ) (rs : List TraceRecord) (d : TraceRecord)
    → AllGood rs
    → (n i : ℕ) → i + n ≤ length rs
    → records_valid (file_of now rs) i n ≡ true
unfolding records_valid
records_valid-file_of now rs d g zero i h = refl
records_valid-file_of now rs d g (suc n) i h =
    let e = decode-record_bytes now rs i d g (omega arith) in
    let v = ap validate_record e ∙ (AllGood-get_or rs i d g (omega arith)).valid in
    rw v (records_valid-file_of now rs d g n (i + 1) (omega arith))

validate_header-file_of :
    (now : Option ℕ) (rs : List TraceRecord)
    → validate_header (decode_header (file_of now rs)) ≡ true
unfolding validate_header decode_header encode_header make_header
validate_header-file_of now rs = refl

-- The replay counts all the records of such a file.
pub count_records-file_of :
    (now : Option ℕ) (rs : List TraceRecord) (d : TraceRecord)
    → AllGood rs
    → count_records (file_of now rs) ≡ length rs
unfolding count_records
count_records-file_of now rs d g =
    let long : ltb (length (file_of now rs)) header_size ≡ false =
      ground (arith, length-file_of now rs) in
    let n : (length (file_of now rs) - 32) / 32 ≡ length rs =
      omega (arith, length-file_of now rs) in
    rw
      (
        long,
        validate_header-file_of now rs,
        n,
        records_valid-file_of now rs d g (length rs) 0 (omega arith),
      )
      refl
