-- ===== src/Stream/Sequencer/Clamp.antt =====
-- The stamps that stream_sequencer.py mints for one stream.
use text.Mathlib.TextPositions.{eq_refl}
use finiex_ragengine.Prelude.{
  ℕ, ◌+◌, String, ◌≡◌, refl, ◌∙◌, ap, Option, none, some, List, [], ◌∷◌, map, max, arith, ltb,
  if◌then◌else◌,
}
use finiex_ragengine.Prelude.Dict
use finiex_ragengine.Prelude.Dict.{Dict, get-put}
use finiex_ragengine.Stream.Types.{StreamStamp}
use finiex_ragengine.Stream.Sequencer.{
  SeqRow, row_or_fresh, advance_row, stamp_of, mint, steps_back, clamp, fresh_row,
}

-- The stamps of a stream whose clock reads `nows` at its mints, other streams left out: a mint of
-- another stream writes another row.
pub mint_all : Dict SeqRow → String → List ℕ → List StreamStamp
mint_all table pid [] = []
mint_all table pid (now ∷ nows) =
    let (table', stamp) = mint table pid now in stamp ∷ mint_all table' pid nows

-- The independent description: each reading with the highest of those before it.
pub peaks : ℕ → List ℕ → List ℕ
peaks m [] = []
peaks m (now ∷ nows) = max m now ∷ peaks (max m now) nows

-- How many of the readings so far lay below the highest of those before them.
pub dips : ℕ → ℕ → List ℕ → List ℕ
dips m n [] = []
dips m n (now ∷ nows) = let n' = if ltb now m then n + 1 else n in n' ∷ dips (max m now) n' nows

-- n, n + 1, …
pub count_from : ℕ → List ℕ → List ℕ
count_from n [] = []
count_from n (_ ∷ nows) = n ∷ count_from (n + 1) nows

abbrev high : Option ℕ → ℕ
high none = 0
high (some m) = m

row_stamps : SeqRow → List ℕ → List StreamStamp
row_stamps row [] = []
row_stamps row (now ∷ nows) = stamp_of now row ∷ row_stamps (advance_row now row) nows

mint_all-row_stamps :
    (table : Dict SeqRow) (pid : String) (nows : List ℕ)
    → mint_all table pid nows ≡ row_stamps (row_or_fresh none (Dict.get table pid)) nows
unfolding mint_all row_stamps mint
mint_all-row_stamps table pid [] = refl
mint_all-row_stamps table pid (now ∷ nows) =
    ap (λ rest. stamp_of now (row_or_fresh none (Dict.get table pid)) ∷ rest)
      (mint_all-row_stamps (mint table pid now).0 pid nows ∙ rw (get-put, eq_refl) refl)

clamp-high : (now : ℕ) (l : Option ℕ) → clamp now l ≡ max (high l) now
clamp-high now none = omega arith
clamp-high now (some m) = omega arith

steps_back-high :
    (now n : ℕ) (l : Option ℕ)
    → n + (if steps_back now l then 1 else 0) ≡ (if ltb now (high l) then n + 1 else n)
steps_back-high now n none = ground arith
steps_back-high now n (some m) = ground arith

row_stamps-peaks :
    (row : SeqRow) (nows : List ℕ)
    → (map (λ s. s.available_msc) (row_stamps row nows) ≡ peaks (high row.last_available_msc) nows)
      × (map (λ s. s.seq) (row_stamps row nows) ≡ count_from (row.seq + 1) nows)
      × (map (λ s. s.resyncs) (row_stamps row nows)
          ≡ dips (high row.last_available_msc) row.available_msc_resyncs nows)
unfolding row_stamps peaks dips count_from advance_row stamp_of
row_stamps-peaks row [] = (refl, refl, refl)
row_stamps-peaks row (now ∷ nows) =
    let ih = row_stamps-peaks (advance_row now row) nows in
    let c = clamp-high now row.last_available_msc in
    let b = steps_back-high now row.available_msc_resyncs row.last_available_msc in
    (cc (ih.0, c), cc ih.1, cc (ih.2, b, c))

-- For a stream that has no counter row yet, whatever the clock reads at its mints: the positions
-- are 1, 2, 3, … without a gap; each `available_msc` is the highest reading up to then, so it never
-- steps back; and `resyncs` counts the readings that lay below an earlier one.
pub mint_all-peaks :
    (table : Dict SeqRow) (pid : String) (nows : List ℕ)
    → Dict.get table pid ≡ none
    → (map (λ s. s.seq) (mint_all table pid nows) ≡ count_from 1 nows)
      × (map (λ s. s.available_msc) (mint_all table pid nows) ≡ peaks 0 nows)
      × (map (λ s. s.resyncs) (mint_all table pid nows) ≡ dips 0 0 nows)
unfolding row_or_fresh
mint_all-peaks table pid nows e =
    let p = row_stamps-peaks (fresh_row none) nows in rw (mint_all-row_stamps, e) (p.1, p.0, p.2)
