-- ===== src/Health/Memory.antt =====
-- The quarantines in the memory and in the rows of
-- finiexragengine/core/observability/source_health_store.py.
use finiex_ragengine.Prelude.{
  ℕ, ◌≤◌, String, ◌≡◌, refl, sym, ap, ◌∙◌, true, false, Option, none, some, [], ◌∷◌, All, All-imp,
  is_some, if◌then◌else◌, arith, eq_iff, str_eq, Bool-cases, inl, inr,
}
use finiex_ragengine.Prelude.Dict
use finiex_ragengine.Prelude.Dict.{Dict, get-put, get-remove}
use finiex_ragengine.Health.{HealthRow, PendingFlag, IngestPass, SourceHealthStore, flag_row}
use finiex_ragengine.Health.Boot.{only_ahead, put_if_some, load_quarantines}

-- Whether no key occurs twice: `source_id` is the primary key.
unfoldable pub IsKeyed : Dict HealthRow → Type 0
IsKeyed [] = Unit
IsKeyed ((id, row) ∷ rows) = (Dict.get rows id ≡ none) × IsKeyed rows

pub put-IsKeyed :
    (rows : Dict HealthRow) (id : String) (row : HealthRow)
    → IsKeyed rows
    → IsKeyed (Dict.put rows id row)
unfolding IsKeyed Dict.put Dict.get
put-IsKeyed [] id row h = (refl, tt)
put-IsKeyed ((j, w) ∷ rows) id row (n, h) = elim (Bool-cases (str_eq j id)) [
  | inl e ↦ rw e (n, h)
  | inr e ↦
      let e' : str_eq id j ≡ false = ground (arith, e, eq_iff j id, eq_iff id j) in
      rw e (rw (get-put rows id j row, e') n, put-IsKeyed rows id row h)
]

abbrev pub until_of : Option HealthRow → Option ℕ
until_of none = none
until_of (some row) = row.quarantined_until

get-put_if_some :
    (o : Option ℕ) (k j : String) (d : Dict ℕ)
    → Dict.get (put_if_some k o d) j
      ≡ (if str_eq k j then (if is_some o then o else Dict.get d j) else Dict.get d j)
get-put_if_some none k j d = ground arith
get-put_if_some (some until) k j d = get-put d k j until

or_none : (o : Option ℕ) → (if is_some o then o else none) ≡ o
or_none none = refl
or_none (some u) = refl

pub get-load :
    (now : ℕ) (rows : Dict HealthRow) (id : String)
    → IsKeyed rows
    → Dict.get (load_quarantines now rows) id ≡ only_ahead now (until_of (Dict.get rows id))
unfolding load_quarantines IsKeyed Dict.get
get-load now [] id h = refl
get-load now ((j, row) ∷ rows) id (n, h) =
    let o = only_ahead now row.quarantined_until in
    get-put_if_some o j id (load_quarantines now rows) ∙ elim (Bool-cases (str_eq j id)) [
      | inl e ↦
          let n' : Dict.get rows id ≡ none = ap (Dict.get rows) (sym ((eq_iff j id).0 e)) ∙ n in
          rw (e, get-load now rows id h, n') (or_none o)
      | inr e ↦ rw e (get-load now rows id h)
    ]

pub only_ahead-later :
    (now t : ℕ) (o : Option ℕ) → now ≤ t → only_ahead t (only_ahead now o) ≡ only_ahead t o
only_ahead-later now t none h = refl
only_ahead-later now t (some until) h = ground (arith, h)

-- Whether the memory and the rows name the same quarantines that are not over at an instant.
unfoldable pub Agrees : ℕ → Dict HealthRow → Dict ℕ → Type 0
Agrees now rows held =
    IsKeyed rows
    × ((id : String)
        → only_ahead now (Dict.get held id) ≡ only_ahead now (until_of (Dict.get rows id)))

pub Agrees-later :
    (now t : ℕ) (rows : Dict HealthRow) (held : Dict ℕ)
    → now ≤ t
    → Agrees now rows held
    → Agrees t rows held
unfolding Agrees
Agrees-later now t rows held h (k, agree) = (
  k,
  λ id.
      sym (only_ahead-later now t (Dict.get held id) h)
      ∙ ap (only_ahead t) (agree id)
      ∙ only_ahead-later now t (until_of (Dict.get rows id)) h,
)

-- One source's row and its quarantine are written together.
pub put-Agrees :
    (now : ℕ) (rows : Dict HealthRow) (held held' : Dict ℕ) (id : String) (row : HealthRow)
    (until : Option ℕ)
    → ((j : String) → Dict.get held' j ≡ (if str_eq id j then until else Dict.get held j))
    → only_ahead now until ≡ only_ahead now row.quarantined_until
    → Agrees now rows held
    → Agrees now (Dict.put rows id row) held'
unfolding Agrees
put-Agrees now rows held held' id row until e same (k, agree) = (
  put-IsKeyed rows id row k,
  λ j.
      rw (e j, get-put rows id j row)
        (elim (Bool-cases (str_eq id j)) [
          | inl here ↦ rw here same
          | inr there ↦ rw there (agree j)
        ]),
)

pub flag-Agrees :
    (now until : ℕ) (rows : Dict HealthRow) (held : Dict ℕ) (id : String) (o : Option HealthRow)
    → is_some o ≡ true
    → Agrees now rows held
    → Agrees now (flag_row until o rows id) (Dict.put held id until)
unfolding flag_row
flag-Agrees now until rows held id none known agree = cc
flag-Agrees now until rows held id (some row) known agree =
    put-Agrees now rows held (Dict.put held id until) id
      (record row { flagged = true; quarantined_until = some until }) (some until)
      (λ j. get-put held id j until) refl agree

abbrev pub Holds : Dict HealthRow → PendingFlag → Type 0
Holds rows p = Dict.has rows p.source_id ≡ true

pub put-Holds :
    (rows : Dict HealthRow) (id : String) (row : HealthRow) (p : PendingFlag)
    → Holds rows p
    → Holds (Dict.put rows id row) p
put-Holds rows id row p h =
    rw (get-put rows id p.source_id row)
      (elim (Bool-cases (str_eq id p.source_id)) [ inl e ↦ rw e refl | inr e ↦ rw e h ])

pub flag-Holds :
    (until : ℕ) (o : Option HealthRow) (rows : Dict HealthRow) (id : String) (p : PendingFlag)
    → Holds rows p
    → Holds (flag_row until o rows id) p
unfolding flag_row
flag-Holds until none rows id p h = h
flag-Holds until (some row) rows id p h =
    put-Holds rows id (record row { flagged = true; quarantined_until = some until }) p h

-- Every withheld flag is about a source that has a row.
unfoldable pub Known : Dict HealthRow → Option IngestPass → Type 0
Known rows none = Unit
Known rows (some pass) = All (Holds rows) pass.pending

pub put-Known :
    (rows : Dict HealthRow) (id : String) (row : HealthRow) (o : Option IngestPass)
    → Known rows o
    → Known (Dict.put rows id row) o
unfolding Known
put-Known rows id row none h = tt
put-Known rows id row (some pass) h =
    All-imp (Holds rows) (Holds (Dict.put rows id row)) pass.pending (put-Holds rows id row) h

unfoldable pub Remembers : ℕ → SourceHealthStore → Type 0
Remembers now store = Agrees now store.rows store.quarantined × Known store.rows store.open_pass
