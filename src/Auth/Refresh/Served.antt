-- ===== src/Auth/Refresh/Served.antt =====
-- A refresh from its request to its answer.
use dilion.Base.{◌≡◌, ◌⊎◌, String, some, find}
use dilion.Exec.{World, Result, ok, err, Exec}
use dilion.Auth.Refresh.Tables.{RefreshToken, Tables, RefreshError, has_token}
use dilion.Auth.Refresh.Validity.{Config}
use dilion.Auth.Refresh.Rows.{OneActiveToken}
use dilion.Auth.Refresh.Ended.{IsEnded}
use dilion.Auth.Refresh.Rotated.{IsGranted}
use dilion.Auth.Refresh.Grant.{Response}
use dilion.Auth.Refresh.Outcome

-- What a refresh by a token answers, and leaves of the tables before it.
pub Served : Config → String → Tables → Result RefreshError Response → Tables → Type 0
Served cfg token before (ok r) db =
    (rt : RefreshToken) × (find (has_token token) before.tokens ≡ some rt)
    × IsGranted rt r before db
Served cfg token before (err e) db =
    (db ≡ before)
    ⊎ ((rt : RefreshToken) × (find (has_token token) before.tokens ≡ some rt)
        × IsEnded cfg rt before db)

abbrev Fine : Config → String → Tables → World Tables × Result RefreshError Response → Type 0
Fine cfg token before x = OneActiveToken x.0.db × Served cfg token before x.1 x.0.db

-- An error of the transaction leaves the database as it was.
abbrev RolledBack : {S E A : Type 0} → S → World S × Result E A → Type 0
RolledBack s (w, ok a) = Unit
RolledBack s (w, err e) = w.db ≡ s
