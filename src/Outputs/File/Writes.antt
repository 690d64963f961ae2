-- ===== src/Outputs/File/Writes.antt =====
-- What reaches the file: the same text that the console prints, or the lines up to the first error.
use mathlib.Core.Path.{subst}
use arbutus.Base.{
  ◌≡◌, ◌⊎◌, ◌∙◌, refl, sym, ap, inl, inr, List, [], ◌∷◌, ◌++◌, append_assoc, append-nil, Option,
  none, some, Bytes, codes, Option-cases,
}
use arbutus.Models.{Telemetry, Log, log, span, metric}
use arbutus.Outputs.Console
use arbutus.Outputs.File.{
  File, Os, close, close_handle, synced, write, write_all, write_one, write_string, wrap,
}
use arbutus.Outputs.Lines.{Format, lines_of, log_line, metric_line}

module _ {H : Type 0} (os : Os H Bytes) (format : Format) where
  -- A disk that appends each text.
  abbrev pub disk : Os H Bytes
  disk = record os { write_string = λ h line text. (text ++ line, none) }

module _ {H : Type 0} (os : Os H (List Bytes)) (reply : List Bytes → Bytes → Option Bytes)
    (format : Format) where
  -- A disk that keeps a journal of what it is told to write, and fails as it likes.
  abbrev pub journal : Os H (List Bytes)
  journal = record os { write_string = λ h line lines. (lines ++ line ∷ [], reply lines line) }

  -- The disk takes each of these lines, one after the other.
  abbrev pub Taken : List Bytes → List Bytes → Type 0
  Taken before [] = Unit
  Taken before (line ∷ lines) = (reply before line ≡ none) × Taken (before ++ line ∷ []) lines

  -- After a write of these lines: all were told and taken, with no error; or those before one were taken,
  -- that one was not, none after it was told, and the disk's error was returned behind some words.
  abbrev pub Told : List Bytes → List Bytes → List Bytes × Option Bytes → Type 0
  Told lines before r =
      ((r.1 ≡ none) × (r.0 ≡ before ++ lines) × Taken before lines)
      ⊎ ((done : List Bytes) × (line : Bytes) × (rest : List Bytes) × (e : Bytes) × (words : Bytes)
          × (lines ≡ done ++ line ∷ rest)
          × (r.0 ≡ before ++ (done ++ line ∷ []))
          × Taken before done
          × (reply (before ++ done) line ≡ some e)
          × (r.1 ≡ some (words ++ e)))

  Told-cons :
      (line : Bytes) (lines before : List Bytes) (r : List Bytes × Option Bytes)
      → reply before line ≡ none
      → Told lines (before ++ line ∷ []) r
      → Told (line ∷ lines) before r
  Told-cons line lines before r now (inl (ok, all, taken)) =
      inl (ok, all ∙ append_assoc before (line ∷ []) lines, (now, taken))
  Told-cons line lines before r now
        (inr (done, last, rest, e, words, split, told, taken, failed, bad)) =
      inr (
        line ∷ done,
        last,
        rest,
        e,
        words,
        ap (λ ls. line ∷ ls) split,
        told ∙ append_assoc before (line ∷ []) (done ++ last ∷ []),
        (now, taken),
        subst (λ b. reply b last ≡ some e) (append_assoc before (line ∷ []) done) failed,
        bad,
      )

  Told-one :
      (line e words : Bytes) (lines before : List Bytes)
      → reply before line ≡ some e
      → Told (line ∷ lines) before (before ++ line ∷ [], some (words ++ e))
  Told-one line e words lines before failed =
      inr ([], line, lines, e, words, refl, refl, tt, rw (append-nil before) failed, refl)

  write_all-none :
      (file : Option H) (t : Telemetry) (ts : List Telemetry) (w v : List Bytes)
      → write_one journal format file t w ≡ (v, none)
      → write_all journal format file (t ∷ ts) w ≡ write_all journal format file ts v
  unfolding write_all
  write_all-none file t ts w v e =
      rw (ap (λ r. r.1) e, write_all) (ap (λ r. write_all journal format file ts r.0) e)

  write_all-some :
      (file : Option H) (t : Telemetry) (ts : List Telemetry) (w v : List Bytes) (m : Bytes)
      → write_one journal format file t w ≡ (v, some m)
      → write_all journal format file (t ∷ ts) w ≡ (v, some m)
  unfolding write_all
  write_all-some file t ts w v m e = rw (ap (λ r. r.1) e, write_all) (ap (λ r. (r.0, some m)) e)

  -- A round of the loop that writes one line.
  Told-line :
      (h : H) (t : Telemetry) (ts : List Telemetry) (before : List Bytes) (words line : Bytes)
      → write_one journal format (some h) t before
        ≡ wrap journal words (before ++ line ∷ [], reply before line)
      → Told
          (lines_of format ts)
          (before ++ line ∷ [])
          (write_all journal format (some h) ts (before ++ line ∷ []))
      → Told (line ∷ lines_of format ts) before (write_all journal format (some h) (t ∷ ts) before)
  unfolding wrap
  Told-line h t ts before words line one rest = elim (Option-cases (reply before line)) [
    | inl ok ↦
        rw (write_all-none (some h) t ts before (before ++ line ∷ []) (rw (ok, wrap) at one)) (
          Told-cons line (lines_of format ts) before
            (write_all journal format (some h) ts (before ++ line ∷ [])) ok rest)
    | inr (e, bad) ↦
        rw
          (write_all-some (some h) t ts before (before ++ line ∷ []) (words ++ e)
            (rw (bad, wrap) at one))
          (Told-one line e words (lines_of format ts) before bad)
  ]

  write_all-Told :
      (h : H) (ts : List Telemetry) (before : List Bytes)
      → Told (lines_of format ts) before (write_all journal format (some h) ts before)
  unfolding write_all write_one write_string
  write_all-Told h [] before = inl (refl, sym (append-nil before), tt)
  write_all-Told h (span s ∷ ts) before = write_all-Told h ts before
  write_all-Told h (log l ∷ ts) before =
      Told-line h (log l) ts before (codes "failed to write log: ")
        (log_line format l ++ codes "\n") refl (write_all-Told h ts _)
  write_all-Told h (metric m ∷ ts) before =
      Told-line h (metric m) ts before (codes "failed to write metric: ")
        (metric_line format m ++ codes "\n") refl (write_all-Told h ts _)

  -- With an open file: either the disk has taken every line of the batch, in order, and `Write` gives no
  -- error; or it has taken those before some line and given an error for that one, `Write` has tried none
  -- after it, and returns that error behind some words.
  pub write-Told :
      (f : File H) (h : H) (ts : List Telemetry) (before : List Bytes)
      → f.file ≡ some h
      → Told (lines_of format ts) before (write journal format f ts before)
  unfolding write
  write-Told f h ts before e = rw e (write_all-Told h ts before)

module _ {H W : Type 0} (os : Os H W) (format : Format) where
  close_handle-none :
      (file : Option H) (f g : File H) (w v : W)
      → f.file ≡ file
      → close_handle os file f w ≡ (g, v, none)
      → g.file ≡ none
  unfolding close_handle synced
  close_handle-none none f g w v q h = sym (ap (λ p. p.0.file) h) ∙ q
  close_handle-none (some x) f g w v q h = elim (Option-cases (os.close x (os.sync x w)).1) [
    | inl e ↦ sym (ap (λ p. p.0.file) (rw (e, synced) at h))
    | inr (m, e) ↦ cc (ap (λ p. p.2) (rw (e, synced) at h))
  ]

  write_all_closed :
      (file : Option H) (l : Log) (ts : List Telemetry) (v : W)
      → file ≡ none
      → write_all os format file (log l ∷ ts) v
        ≡ (v, some (codes "failed to write log: invalid argument"))
  unfolding write_all write_one write_string wrap
  write_all_closed none l ts v q = refl
  write_all_closed (some h) l ts v q = cc

  -- Once `Close` has given no error, another `Close` changes nothing and gives none, and a `Write` of
  -- a log leaves the world as it is and gives an error.
  pub close-write :
      (f g : File H) (w v : W) (l : Log) (ts : List Telemetry)
      → close os f w ≡ (g, v, none)
      → (close os g v ≡ (g, v, none))
        × (write os format g (log l ∷ ts) v
            ≡ (v, some (codes "failed to write log: invalid argument")))
  unfolding close close_handle write
  close-write f g w v l ts h =
      let closed = close_handle-none f.file f g w v refl h in
      (rw (closed, close_handle), write_all_closed g.file l ts v closed)
