-- ===== src/Tests/History.antt =====
-- The sample's posted transaction is found, and balances.
use personal_finance_public.Base.{String, ◌≡◌, refl, some, ◌==◌, arith}
use personal_finance_public.Base.Int.{sum, ◌+ℤ◌, neg}
use personal_finance_public.Storage.Table.{lookup}
use personal_finance_public.Storage.Schema.{TransactionRecord, transaction_keyed}
use personal_finance_public.Storage.Schema.Soundness.{IsBalanced, IsSound}
use personal_finance_public.Tests.Sample.{reversed_row, with_history}

pub history_found : lookup "old" with_history.db.transactions ≡ some reversed_row
unfolding lookup ◌==◌
history_found = refl

one_row :
    (id : String) (t : TransactionRecord)
    → lookup id with_history.db.transactions ≡ some t
    → t ≡ reversed_row
unfolding lookup
one_row id t h = ground arith

reversed_row-IsBalanced : IsBalanced with_history.db.entries reversed_row
unfolding ◌==◌ sum ◌+ℤ◌ neg
reversed_row-IsBalanced = record { several = ground arith; balanced = refl }

pub with_history-IsSound : IsSound with_history.db
with_history-IsSound = record {
  history_balanced = λ id t found h. rw (one_row id t found) reversed_row-IsBalanced;
}
