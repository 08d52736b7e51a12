-- ===== src/CsvWriter/Records.antt =====
-- Snapshots and lists of entries behind the nodes that they refer to.
use caliper.Base.{ℕ, ◌≡◌, sym, subst}
use caliper.Base.{List, ◌∷◌, ◌++◌, Option, some, All, All-mono}
use caliper.Variant.{Variant}
use caliper.CsvWriter.{Db, Line, Writer}
use caliper.CsvWriter.Order.{IsDone, IsDone-append, IsWriter}

-- All nodes of the list are done, and the earlier ones still are.
abbrev AllWritten : Db → Writer → List ℕ → Option Writer → Type 0
AllWritten db w ids result =
    (w' : Writer) × (front : List ℕ) × (result ≡ some w')
    × IsWriter db w'
    × (w'.written ≡ front ++ w.written)
    × All (IsDone db w'.written) ids

pub still-IsDone :
    (db : Db) (front ws ws' ids : List ℕ)
    → ws' ≡ front ++ ws
    → All (IsDone db ws) ids
    → All (IsDone db ws') ids
still-IsDone db front ws ws' ids e h =
    All-mono {P = IsDone db ws}
      (λ x done. subst (λ v. IsDone db v x) (sym e) (IsDone-append db front ws x done)) ids h

-- What a writer answers: the record is the last line, and all is in order.
abbrev pub EndsWith : Db → Line → Option Writer → Type 0
EndsWith db line result =
    (w' : Writer) × (before : List Line) × (result ≡ some w')
    × IsWriter db w'
    × (w'.lines ≡ line ∷ before)
