-- ===== src/Common/State/Any.antt =====
-- The predicate that holds of any state.
use rust_tftp.Common.State.{Run}
use rust_tftp.Common.State.Keeps.{Keeps}

abbrev pub Any : {S : Type 0} → S → Type 0
Any s = Unit {0}

pub Keeps-Any : {S E A : Type 0} (m : Run S E A) → Keeps Any m
Keeps-Any m = record { at = λ s p. tt }
