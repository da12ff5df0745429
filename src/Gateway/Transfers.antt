-- ===== src/Gateway/Transfers.antt =====
-- Transfers of tokens as runs of `Gateway.Steps`.
use tezos_api_gateway.Base.{
  ℕ, String, Bool, true, false, ◌||◌, Option, List, [], ◌∷◌, or_blank, is_empty, if◌then◌else◌,
}
use tezos_api_gateway.Exceptions.{err}
use tezos_api_gateway.Database.Schema.{Job, published}
use tezos_api_gateway.Database.Effect.{throw, lift, ◌>>=◌}
use tezos_api_gateway.Database.Jobs.{has_id, select_jobs, update_job_status_and_operation_hash}
use tezos_api_gateway.Database.Operations.{insert_transaction}
use tezos_api_gateway.Sending.{Sent, sending, is_absent}
use tezos_api_gateway.Sending.Transfers.{
  TransferSender, TransferParams, send_transfers, transfer_row, insert_transfer_transactions,
  first_updated, recorded_transfer, undefined_hash, record_transfer, transfer_for, transfer_failure,
  send_transfer_transactions,
}
use tezos_api_gateway.Gateway.Steps.{here}
use tezos_api_gateway.Gateway.Invariant.Lists.{All-every}
use tezos_api_gateway.Gateway.Runs.{
  Runs, lift-Runs, >>=-Runs, try_catch-Runs, map_all-Runs, select_jobs-Runs,
  update_job_status_and_operation_hash-Runs, insert_transaction-Runs,
}
use tezos_api_gateway.Gateway.Handlers.{failure-Runs}
use tezos_api_gateway.Gateway.Workers.{sending-Runs}

module _ {Allowed : ℕ → Type 0} {seen : List ℕ} (sender : TransferSender) (now : String)
    (params : TransferParams) (allowed : Allowed params.job_id) where
  insert_transfer_transactions-Runs :
      (pkh : String) → Runs Allowed seen (insert_transfer_transactions sender now params pkh)
  unfolding insert_transfer_transactions transfer_row
  insert_transfer_transactions-Runs pkh =
      map_all-Runs (λ t. insert_transaction now (transfer_row params pkh t)) params.transactions
        (All-every (λ t. Runs Allowed seen (insert_transaction now (transfer_row params pkh t)))
          params.transactions λ t. insert_transaction-Runs now (transfer_row params pkh t) allowed)

  recorded_transfer-Runs :
      (sent : Sent) (pkh : Option String)
      → Runs Allowed seen (recorded_transfer sender now params sent pkh)
  recorded_transfer-Runs sent pkh =
      let updates = update_job_status_and_operation_hash published sent.hash params.job_id in
      >>=-Runs (insert_transfer_transactions sender now params (or_blank pkh))
        (λ _. updates >>= first_updated sender now params)
        (insert_transfer_transactions-Runs (or_blank pkh))
        λ _.
          >>=-Runs updates (first_updated sender now params)
            (update_job_status_and_operation_hash-Runs sent.hash params.job_id)
            λ updated w tame. (here, tame)

  record_transfer-Runs : (sent : Sent) → Runs Allowed seen (record_transfer sender now params sent)
  unfolding record_transfer
  record_transfer-Runs sent =
      >>=-Runs (lift sender.public_key_hash)
        (λ pkh.
          if is_absent pkh || is_empty sent.hash
          then throw {A = Option Job} (undefined_hash sender now params)
          else recorded_transfer sender now params sent pkh)
        (lift-Runs sender.public_key_hash) λ pkh. go pkh (is_absent pkh || is_empty sent.hash)
    where
      go :
          (pkh : Option String) (missing : Bool)
          → Runs Allowed seen (
              if missing
              then throw {A = Option Job} (undefined_hash sender now params)
              else recorded_transfer sender now params sent pkh)
      go pkh true = lift-Runs {A = Option Job} (err (undefined_hash sender now params))
      go pkh false = recorded_transfer-Runs sent pkh

  transfer_for-Runs : (jobs : List Job) → Runs Allowed seen (transfer_for sender now params jobs)
  unfolding transfer_for
  transfer_for-Runs [] = λ w tame. (here, tame)
  transfer_for-Runs (_ ∷ _) =
      >>=-Runs (sending (send_transfers sender params.transactions))
        (record_transfer sender now params)
        (sending-Runs (send_transfers sender params.transactions)) record_transfer-Runs

  pub send_transfer_transactions-Runs :
      Runs Allowed seen (send_transfer_transactions sender now params)
  unfolding send_transfer_transactions transfer_failure
  send_transfer_transactions-Runs =
      try_catch-Runs (select_jobs (has_id params.job_id) >>= transfer_for sender now params)
        (transfer_failure sender now params)
        (>>=-Runs (select_jobs (has_id params.job_id)) (transfer_for sender now params)
          (select_jobs-Runs (has_id params.job_id)) transfer_for-Runs)
        (failure-Runs (Option Job) params.job_id)
