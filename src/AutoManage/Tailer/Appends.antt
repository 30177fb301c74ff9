-- ===== src/AutoManage/Tailer/Appends.antt =====
-- What the tailer makes of a file that grows, and of one that is replaced.
use oss_agent_tools.Prelude.{
  ℕ, ◌≤◌, ◌<◌, ◌≡◌, refl, ap, ap₂, sym, ◌∙◌, ◌≢◌, inl, inr, true, false, List, [], ◌∷◌, ◌++◌,
  append_assoc, append-nil, text_key, lookup, insert, lookup-insert, lookup-insert_self,
  lookup-insert_ne, insert-insert, drop-length, drop-append, or_else, length, length-append, drop,
  ltb, All, Bool-cases, arith, beq_refl,
}
use oss_agent_tools.AutoManage.Text.{
  Text, split_lines, ends_with_newline, init, last, clean, clean-append, clean_blank, clean-ne,
  split_lines-append, split_lines-ne, init-append, last-append, split_lines-init-last, last_of_ends,
}
use oss_agent_tools.AutoManage.Tailer.{
  TraceTailer, kept_segments, trailing_remainder, read_appended_lines, empty_tailer,
}

-- In both cases the remainder is the last segment, and the lines come from those before it.
trailing-last : (s : Text) → trailing_remainder s ≡ last (split_lines s)
trailing-last s = elim (Bool-cases (ends_with_newline s)) [
  | inl e ↦ rw e (sym (last_of_ends s e))
  | inr e ↦ rw e
]

kept-init : (s : Text) → clean (kept_segments s) ≡ clean (init (split_lines s))
kept-init s = elim (Bool-cases (ends_with_newline s)) [
  | inl e ↦ rw e (
      ap clean (sym (split_lines-init-last s))
      ∙ clean-append (init (split_lines s)) (last (split_lines s) ∷ [])
      ∙ ap (λ l. clean (init (split_lines s)) ++ clean (l ∷ [])) (last_of_ends s e)
      ∙ ap (λ k. clean (init (split_lines s)) ++ k) clean_blank
      ∙ append-nil _)
  | inr e ↦ rw e
]

-- A text read in two parts gives the lines and the remainder that it gives when read at once.
kept-append :
    (x b : Text)
    → clean (kept_segments (x ++ b))
      ≡ clean (kept_segments x) ++ clean (kept_segments (trailing_remainder x ++ b))
kept-append x b =
    kept-init (x ++ b)
    ∙ ap (λ ls. clean (init ls)) (split_lines-append x b)
    ∙ ap clean (init-append (init (split_lines x)) _ (split_lines-ne _))
    ∙ clean-append (init (split_lines x)) _
    ∙ ap₂ (λ u v. u ++ v) (sym (kept-init x))
        (ap (λ r. clean (init (split_lines (r ++ b)))) (sym (trailing-last x))
          ∙ sym (kept-init (trailing_remainder x ++ b)))

trailing-append :
    (x b : Text) → trailing_remainder (x ++ b) ≡ trailing_remainder (trailing_remainder x ++ b)
trailing-append x b =
    trailing-last (x ++ b)
    ∙ ap last (split_lines-append x b)
    ∙ last-append (init (split_lines x)) _ (split_lines-ne _)
    ∙ ap (λ r. last (split_lines (r ++ b))) (sym (trailing-last x))
    ∙ sym (trailing-last (trailing_remainder x ++ b))

abbrev pub offset_of : TraceTailer → Text → ℕ
offset_of t file_path = or_else (lookup file_path t.offsets) 0

abbrev pub remainder_of : TraceTailer → Text → Text
remainder_of t file_path = or_else (lookup file_path t.remainders) []

module _ (decode : List ℕ → Text) (t : TraceTailer) (file_path : Text) where
  -- A read of a file that has not become shorter.
  read_grown :
      (bytes : List ℕ)
      → offset_of t file_path ≤ length bytes
      → let merged = remainder_of t file_path ++ decode (drop (offset_of t file_path) bytes) in
        read_appended_lines decode t file_path bytes ≡ (
          record {
            offsets = insert file_path (length bytes) t.offsets;
            remainders = insert file_path (trailing_remainder merged) t.remainders;
          },
          record { lines = clean (kept_segments merged); offset = length bytes; rotated = false },
        )
  unfolding read_appended_lines
  read_grown bytes h =
      let e : ltb (length bytes) (offset_of t file_path) ≡ false = ground arith in rw e

  -- A read of a file that has become shorter starts over.
  read_shrunk :
      (bytes : List ℕ)
      → length bytes < offset_of t file_path
      → read_appended_lines decode t file_path bytes ≡ (
        record {
          offsets = insert file_path (length bytes) t.offsets;
          remainders = insert file_path (trailing_remainder (decode bytes)) t.remainders;
        },
        record {
          lines = clean (kept_segments (decode bytes));
          offset = length bytes;
          rotated = true;
        },
      )
  unfolding read_appended_lines
  read_shrunk bytes h =
      let e : ltb (length bytes) (offset_of t file_path) ≡ true = ground arith in rw e

-- The tailer after a read that left `o` and `r` for the file.
abbrev after_read : TraceTailer → Text → ℕ → Text → TraceTailer
after_read t file_path o r = record {
  offsets = insert file_path o t.offsets;
  remainders = insert file_path r t.remainders;
}

module _ (decode : List ℕ → Text) (t : TraceTailer) (file_path : Text) where
  offset-after : (o : ℕ) (r : Text) → offset_of (after_read t file_path o r) file_path ≡ o
  offset-after o r = rw (lookup-insert file_path file_path o t.offsets, beq_refl file_path)

  remainder-after : (o : ℕ) (r : Text) → remainder_of (after_read t file_path o r) file_path ≡ r
  remainder-after o r = rw (lookup-insert file_path file_path r t.remainders, beq_refl file_path)

  read_again :
      (o : ℕ) (r : Text) (bytes : List ℕ)
      → o ≤ length bytes
      → let merged = r ++ decode (drop o bytes) in
        read_appended_lines decode (after_read t file_path o r) file_path bytes ≡ (
          after_read t file_path (length bytes) (trailing_remainder merged),
          record { lines = clean (kept_segments merged); offset = length bytes; rotated = false },
        )
  read_again o r bytes h =
      read_grown decode (after_read t file_path o r) file_path bytes (rw (offset-after o r) h)
      ∙ rw (
        offset-after o r,
        remainder-after o r,
        insert-insert file_path (length bytes) o t.offsets,
        insert-insert file_path (trailing_remainder (r ++ decode (drop o bytes))) r t.remainders,
      )

  -- Reading a file, then what was appended to it, gives the lines and the state that one read of
  -- the whole gives from the same state, if the file is no shorter than at the last read and no
  -- character is cut between the two: the new bytes and the appended ones together decode to what
  -- they decode to apart.
  pub read-append :
      (bytes more : List ℕ)
      → offset_of t file_path ≤ length bytes
      → decode (drop (offset_of t file_path) bytes ++ more)
        ≡ decode (drop (offset_of t file_path) bytes) ++ decode more
      → let first = read_appended_lines decode t file_path bytes in
        let second = read_appended_lines decode first.0 file_path (bytes ++ more) in
        let whole = read_appended_lines decode t file_path (bytes ++ more) in
        (second.0 ≡ whole.0) × (first.1.lines ++ second.1.lines ≡ whole.1.lines)
  read-append bytes more h split =
      rw
        (
          read_grown decode t file_path bytes h,
          read_again (length bytes)
              (trailing_remainder
                (remainder_of t file_path ++ decode (drop (offset_of t file_path) bytes)))
              (bytes ++ more) (omega (arith, length-append bytes more)),
          read_grown decode t file_path (bytes ++ more) (omega (arith, length-append bytes more)),
          drop-length bytes more,
          drop-append (offset_of t file_path) bytes more h,
          split,
        )
        (ap (after_read t file_path (length (bytes ++ more))) (sym same_rest), sym same_lines)
    where
      old : Text
      old = decode (drop (offset_of t file_path) bytes)

      new : Text
      new = decode more

      x : Text
      x = remainder_of t file_path ++ old

      same_rest :
          trailing_remainder (remainder_of t file_path ++ (old ++ new))
          ≡ trailing_remainder (trailing_remainder x ++ new)
      same_rest =
          ap trailing_remainder (sym (append_assoc (remainder_of t file_path) old new))
          ∙ trailing-append x new

      same_lines :
          clean (kept_segments (remainder_of t file_path ++ (old ++ new)))
          ≡ clean (kept_segments x) ++ clean (kept_segments (trailing_remainder x ++ new))
      same_lines =
          ap (λ z. clean (kept_segments z)) (sym (append_assoc (remainder_of t file_path) old new))
          ∙ kept-append x new

  -- A file that is shorter than at the last read is read from its beginning, with no remainder, as
  -- a file that was never read.
  pub read-rotated :
      (bytes : List ℕ)
      → length bytes < offset_of t file_path
      → let here = read_appended_lines decode t file_path bytes in
        let anew = read_appended_lines decode empty_tailer file_path bytes in
        (here.1.rotated ≡ true)
        × (here.1.lines ≡ anew.1.lines)
        × (offset_of here.0 file_path ≡ offset_of anew.0 file_path)
        × (remainder_of here.0 file_path ≡ remainder_of anew.0 file_path)
  read-rotated bytes h =
      rw
        (
          read_shrunk decode t file_path bytes h,
          read_grown decode empty_tailer file_path bytes (omega arith),
        )
        (
          refl,
          refl,
          offset-after (length bytes) []
              ∙ sym (ap (λ o. or_else o 0) (lookup-insert_self file_path (length bytes) [])),
          remainder-after (length bytes) (trailing_remainder (decode bytes))
              ∙ sym (
                  ap (λ o. or_else o [])
                    (lookup-insert_self file_path (trailing_remainder (decode bytes)) [])),
        )

  -- No line is empty, and no other file's offset or remainder changes.
  pub read-frame :
      (bytes : List ℕ) (other : Text)
      → file_path ≢ other
      → let r = read_appended_lines decode t file_path bytes in
        All (λ l. l ≢ []) r.1.lines
        × (lookup other r.0.offsets ≡ lookup other t.offsets)
        × (lookup other r.0.remainders ≡ lookup other t.remainders)
  unfolding read_appended_lines
  read-frame bytes other h =
      (clean-ne _, lookup-insert_ne file_path other _ _ h, lookup-insert_ne file_path other _ _ h)
