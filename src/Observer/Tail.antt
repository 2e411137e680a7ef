-- ===== src/Observer/Tail.antt =====
-- `_tail_lines` of flotilla/observer.py: the end of a session log, read backwards in chunks.
use ker_sor_monitor.Prelude.{
  drop-drop, drop_all, ℕ, zero, suc, ◌+◌, ◌-◌, ◌≤◌, ◌<◌, ◌≡◌, refl, ap, String, Bool, true, false,
  ◌&&◌, ◌||◌, Option, none, some, List, [], ◌++◌, if◌then◌else◌, length, take, drop, count_if, leb,
  ltb, nat_beq, min, arith, Bool-cases, inl, inr, ◌⊎◌, take-append-drop, length-drop,
  count_if-append, sym, ltb→lt, ◌∙◌, append_nil,
}
use ker_sor_monitor.Prelude.Rows.{map_option}

-- `_SESSION_TAIL_CHUNK_BYTES`
abbrev pub chunk_bytes : ℕ
chunk_bytes = 8192

-- `chunk.count(b"\n")`
abbrev pub newlines_in : List ℕ → ℕ
newlines_in bytes = count_if (λ c. nat_beq c 10) bytes

-- The variables of the loop; `read` is what the chunks make together.
pub record Scan : Type 0 where
  pub position : ℕ
  pub newlines : ℕ
  pub read : List ℕ

-- `pos > start and newlines <= n`
abbrev pub goes_on : ℕ → ℕ → Scan → Bool
goes_on n start s = ltb start s.position && leb s.newlines n

-- The body of the loop, on the bytes of the file.
abbrev pub read_chunk : List ℕ → ℕ → Scan → Scan
read_chunk file start s =
    let size = min chunk_bytes (s.position - start) in
    let chunk = take size (drop (s.position - size) file) in
    record {
      position = s.position - size;
      newlines = s.newlines + newlines_in chunk;
      read = chunk ++ s.read;
    }

-- The loop, for a number of rounds.
unfoldable pub scan : List ℕ → ℕ → ℕ → ℕ → Scan → Option (List ℕ)
scan file n start zero s = if goes_on n start s then none else some s.read
scan file n start (suc rounds) s =
    let rest = scan file n start rounds (read_chunk file start s) in
    if goes_on n start s then rest else some s.read

-- `data`, before it is decoded. The numbers are not negative.
unfoldable pub tail_bytes : List ℕ → ℕ → ℕ → Option (List ℕ)
unfolding scan
tail_bytes file n max_bytes =
    if nat_beq n 0 || nat_beq max_bytes 0
    then some []
    else scan file n (length file - max_bytes) (length file)
        (record { position = length file; newlines = 0; read = [] })

-- `_tail_lines`; `lines` is `decode(errors="replace").splitlines()`.
unfoldable pub tail_lines : (List ℕ → List String) → List ℕ → ℕ → ℕ → Option (List String)
unfolding tail_bytes
tail_lines lines file n max_bytes =
    map_option (λ bytes. drop (length (lines bytes) - n) (lines bytes))
      (tail_bytes file n max_bytes)

module _ (file : List ℕ) (n start : ℕ) where
  -- What has been read is the end of the file from the position on.
  record Reads (s : Scan) : Type 0 where
    is_end : s.read ≡ drop s.position file
    counted : s.newlines ≡ newlines_in s.read
    begins : start ≤ s.position
    inside : s.position ≤ length file

  split_at : (k p : ℕ) → k ≤ p → take k (drop (p - k) file) ++ drop p file ≡ drop (p - k) file
  split_at k p h =
      let e : (p - k) + k ≡ p = omega (arith, h) in
      let there : drop p file ≡ drop k (drop (p - k) file) =
        ap (λ x. drop x file) (sym e) ∙ sym (drop-drop (p - k) k file) in
      ap (λ x. take k (drop (p - k) file) ++ x) there ∙ take-append-drop k (drop (p - k) file)

  read_chunk-Reads :
      (s : Scan) → ltb start s.position ≡ true → Reads s → Reads (read_chunk file start s)
  read_chunk-Reads s more h =
      let size = min chunk_bytes (s.position - start) in
      let fits : size ≤ s.position = omega arith in
      let chunk = take size (drop (s.position - size) file) in
      record {
        is_end = ap (λ x. chunk ++ x) h.is_end ∙ split_at size s.position fits;
        counted =
            ap (λ x. x + newlines_in chunk) h.counted
            ∙ omega (arith, count_if-append (λ c. nat_beq c 10) chunk s.read);
        begins = omega (arith, h.begins);
        inside = omega (arith, h.inside);
      }

  smaller :
      (s : Scan) → ltb start s.position ≡ true → suc (read_chunk file start s).position ≤ s.position
  smaller s more = omega (arith, ltb→lt start s.position more)

  more : (s : Scan) → goes_on n start s ≡ true → ltb start s.position ≡ true
  more s h = ground (arith, h)

  -- The rounds suffice, and at the end there is nothing left to read or there are newlines enough.
  scan_ends :
      (rounds : ℕ) (s : Scan)
      → Reads s
      → s.position ≤ start + rounds
      → (t : Scan) × (scan file n start rounds s ≡ some t.read)
        × Reads t
        × (goes_on n start t ≡ false)
  unfolding scan
  scan_ends zero s h enough = elim (Bool-cases (goes_on n start s)) [
    | inl e ↦ absurd (omega (arith, ltb→lt start s.position (more s e), enough))
    | inr e ↦ rw e (s, refl, h, e)
  ]
  scan_ends (suc rounds) s h enough = elim (Bool-cases (goes_on n start s)) [
    | inl e ↦
        let on = more s e in
        rw e (
          scan_ends rounds (read_chunk file start s) (read_chunk-Reads s on h)
            (omega (arith, smaller s on, enough)))
    | inr e ↦ rw e (s, refl, h, e)
  ]

  begin-Reads :
      start ≤ length file → Reads (record { position = length file; newlines = 0; read = [] })
  begin-Reads h = record {
    is_end = sym (drop_all file);
    counted = refl;
    begins = h;
    inside = omega arith;
  }

-- The loop ends after at most one round for each byte of the file. What it has read is the end of the
-- file, at most `max_bytes` long, and it is as long as it may be unless it has more than `n` newlines.
pub tail_bytes_lem :
    (file : List ℕ) (n max_bytes : ℕ)
    → 0 < n
    → (before bytes : List ℕ) × (tail_bytes file n max_bytes ≡ some bytes)
      × (before ++ bytes ≡ file)
      × (length bytes ≤ max_bytes)
      × ((length bytes ≡ min max_bytes (length file)) ⊎ (n < newlines_in bytes))
unfolding tail_bytes
tail_bytes_lem file n max_bytes positive = elim (Bool-cases (nat_beq max_bytes 0)) [
  | inl e ↦ (file, [], ground (arith, e), append_nil file, omega arith, inl (ground (arith, e)))
  | inr e ↦
      let start = length file - max_bytes in
      let none_read : Scan = record { position = length file; newlines = 0; read = [] } in
      let (t, found, reads, over) =
        scan_ends file n start (length file) none_read (begin-Reads file n start (omega arith))
          (omega arith) in
      let is_zero : nat_beq n 0 ≡ false = ground (arith, positive) in
      let there : length t.read ≡ length file - t.position =
        ap length reads.is_end ∙ length-drop t.position file in
      (
        take t.position file,
        t.read,
        rw (is_zero, e) found,
        ap (λ x. take t.position file ++ x) reads.is_end ∙ take-append-drop t.position file,
        omega (arith, there, reads.begins, reads.inside),
        by t start refl reads.begins reads.inside reads.counted there over (ltb start t.position)
            refl,
      )
]
  where
    by :
        (t : Scan) (start : ℕ)
        → start ≡ length file - max_bytes
        → start ≤ t.position
        → t.position ≤ length file
        → t.newlines ≡ newlines_in t.read
        → length t.read ≡ length file - t.position
        → goes_on n start t ≡ false
        → (b : Bool) → ltb start t.position ≡ b
        → (length t.read ≡ min max_bytes (length file)) ⊎ (n < newlines_in t.read)
    by t start starts begins inside counted there over true e =
        let newlines : leb t.newlines n ≡ false = ground (arith, over, e) in
        let above : n < t.newlines = ground (arith, newlines) in inr (omega (arith, above, counted))
    by t start starts begins inside counted there over false e =
        let reached : t.position ≤ start = ground (arith, e) in
        inl (omega (arith, there, reached, begins, starts))
