-- ===== src/Ledger/Replay/Commands.antt =====
-- The posting commands of handlers.py, and the stored keys while they run.
use personal_finance_public.Base.{String, Bool, true, ◌≡◌, arith, Result, ok, err}
use personal_finance_public.Domain.Account.{CategoryKind}
use personal_finance_public.Domain.Transaction.{Transaction}
use personal_finance_public.Storage.Json.{JsonValue}
use personal_finance_public.Storage.Exec.{Exec, lift, ◌>>=◌}
use personal_finance_public.Storage.World.{Env, World}
use personal_finance_public.Storage.World.Rules.{Keeps}
use personal_finance_public.Ledger.Commands.{
  PostDraft, OpeningCommand, CategoryCommand, TransferCommand, CommandResult,
}
use personal_finance_public.Ledger.Audit.{FinancialAuditSink}
use personal_finance_public.Ledger.Handlers.Posting.{post_idempotently}
use personal_finance_public.Ledger.Handlers.Drafts.{post_draft}
use personal_finance_public.Ledger.Handlers.Movements.{
  create_opening, create_category_movement, create_transfer,
}
use personal_finance_public.Ledger.Replay.{SameKeys}
use personal_finance_public.Ledger.Replay.Again.{post_idempotently-replays}
use personal_finance_public.Ledger.Replay.Keys.{
  store_posted-SameKeys, build_from_draft-SameKeys, build_opening-SameKeys, build_movement-SameKeys,
  build_transfer-SameKeys,
}

-- Run again in a world with the same stored keys, the command only gives its result back.
record Replays (m : Exec World CommandResult) : Type 0 where
  pub again :
      (w later : World) (result : CommandResult)
      → (m w).0 ≡ ok result
      → later.db.idempotency_records ≡ (m w).1.db.idempotency_records
      → m later ≡ (ok (record result { replayed = true }), later)

lift-Replays :
    {A : Type 0} (r : Result A) (f : A → Exec World CommandResult)
    → ((a : A) → Replays (f a))
    → Replays (lift r >>= f)
unfolding ◌>>=◌
lift-Replays (ok a) f all_replay = record { again = (all_replay a).again }
lift-Replays (err e) f all_replay = record {
  again = λ w later result h same. absurd (ground (arith, h));
}

post_idempotently-Replays :
    (env : Env) (sink : FinancialAuditSink) (s n k : String) (p : JsonValue)
    (build : Exec World Transaction) (b : Bool)
    → Keeps SameKeys build
    → Replays (post_idempotently env sink s n k p build b)
post_idempotently-Replays env sink s n k p build b kb = record {
  again = λ w later result h same.
      post_idempotently-replays env sink s n k p build b kb (store_posted-SameKeys env sink b) w
        later h same;
}

ruleset replay_rules = (
  lift-Replays, post_idempotently-Replays, build_from_draft-SameKeys, build_opening-SameKeys,
  build_movement-SameKeys, build_transfer-SameKeys,
)

-- The five posting commands of `FinancialCommandService`.
pub data PostingCommand : Type 0 where
  of_draft : PostDraft → PostingCommand
  of_opening : OpeningCommand → PostingCommand
  of_movement : CategoryKind → CategoryCommand → PostingCommand
  of_transfer : TransferCommand → PostingCommand

module _ (env : Env) (sink : FinancialAuditSink) where
  unfoldable pub issue : PostingCommand → Exec World CommandResult
  issue (of_draft c) = post_draft env sink c
  issue (of_opening c) = create_opening env sink c
  issue (of_movement kind c) = create_category_movement env sink kind c
  issue (of_transfer c) = create_transfer env sink c

  issue-Replays : (c : PostingCommand) → Replays (issue c)
  unfolding issue post_draft create_opening create_category_movement create_transfer
  issue-Replays (of_draft c) = search replay_rules
  issue-Replays (of_opening c) = search replay_rules
  issue-Replays (of_movement kind c) = search replay_rules
  issue-Replays (of_transfer c) = search replay_rules

  -- A posting command that has succeeded, given again in any world with the same stored keys, gives
  -- the same result back, marked as replayed, and changes nothing at all in that world.
  pub issue-replays :
      (c : PostingCommand) (w later : World) (result : CommandResult)
      → (issue c w).0 ≡ ok result
      → later.db.idempotency_records ≡ (issue c w).1.db.idempotency_records
      → issue c later ≡ (ok (record result { replayed = true }), later)
  issue-replays c = (issue-Replays c).again
