-- ===== src/Sending/Transfers.antt =====
-- lib/jobs/send-transfer-transactions.ts, and the controller of processes/web/api/user/ that calls it: plain
-- transfers of tokens, signed with the key of a user.
use Prim.Native.String
use tezos_api_gateway.Base.{
  ℕ, String, true, false, ◌||◌, Option, some, List, [], ◌∷◌, or_blank, is_empty, if◌then◌else◌,
}
use tezos_api_gateway.Base.Int.{pos}
use tezos_api_gateway.Base.Decimal.{to_string}
use tezos_api_gateway.Value.{undef}
use tezos_api_gateway.Exceptions.{
  Exn, job_id_not_found, other_error, Result, message, is_job_id_not_found,
}
use tezos_api_gateway.Database.Schema.{Job, Operation, published, error}
use tezos_api_gateway.Database.Effect.{Action, pure, throw, lift, try_catch, ◌>>=◌, ◌>>◌, map_all}
use tezos_api_gateway.Database.Jobs.{
  has_id, select_jobs, update_job_status_and_operation_hash, update_job_status_and_error_message,
}
use tezos_api_gateway.Database.Operations.{insert_transaction, NewTransaction}
use tezos_api_gateway.Sending.{Sent, sending, head_of, is_absent}

-- const/interfaces/user/transfer/transfer-tokens.ts
pub record Transfer : Type 0 where
  pub to : String
  pub amount : ℕ

pub record TransferParams : Type 0 where
  pub transactions : List Transfer
  pub job_id : ℕ
  pub caller_id : Option String

-- Taquito with the signer of the user: `tezosService.transfer`, `batch.send`, and the address of the key.
pub record TransferSender : Type 0 where
  pub transfer : Transfer → Result Sent
  pub send_batch : List Transfer → Result Sent
  pub public_key_hash : Result (Option String)

-- `getTransferOperationHashFromTezos`
unfoldable pub send_transfers : TransferSender → List Transfer → Result Sent
send_transfers sender (one ∷ []) = sender.transfer one
send_transfers sender list = sender.send_batch list

unfoldable pub transfer_row : TransferParams → String → Transfer → NewTransaction
transfer_row params pkh t = record {
  destination = t.to;
  source = pkh;
  parameters_json = undef;
  amount = pos t.amount;
  job_id = params.job_id;
  caller_id = some (or_blank params.caller_id);
}

module _ (sender : TransferSender) (now : String) (params : TransferParams) where
  -- `insertTransferTransactions`
  unfoldable pub insert_transfer_transactions : String → Action (List (List Operation))
  unfolding map_all insert_transaction transfer_row
  insert_transfer_transactions pkh =
      map_all (λ t. insert_transaction now (transfer_row params pkh t)) params.transactions

  abbrev pub first_updated : List Job → Action (Option Job)
  first_updated updated = pure (head_of updated)

  abbrev pub recorded_transfer : Sent → Option String → Action (Option Job)
  recorded_transfer sent pkh = insert_transfer_transactions (or_blank pkh) >>= λ _.
      update_job_status_and_operation_hash published sent.hash params.job_id >>= first_updated

  abbrev pub undefined_hash : Exn
  undefined_hash = other_error "Public key hash or operation hash is undefined"

  -- From the hash of the operation to the answer.
  unfoldable pub record_transfer : Sent → Action (Option Job)
  unfolding insert_transfer_transactions
  record_transfer sent = lift sender.public_key_hash >>= λ pkh.
      if is_absent pkh || is_empty sent.hash
      then throw undefined_hash
      else recorded_transfer sent pkh

  -- From the rows of the job to the end of the `try` block.
  unfoldable pub transfer_for : List Job → Action (Option Job)
  unfolding sending send_transfers record_transfer
  transfer_for [] = throw (
      job_id_not_found
        (String.◌++◌ "Could not find job with this id: " (to_string (pos params.job_id))))
  transfer_for (_ ∷ _) = sending (send_transfers sender params.transactions) >>= record_transfer

  unfoldable pub transfer_failure : Exn → Action (Option Job)
  transfer_failure e = elim (is_job_id_not_found e) [
    | true ↦ throw e
    | false ↦ do update_job_status_and_error_message error (message e) params.job_id; throw e
  ]

  -- `sendTransferTransactions`
  unfoldable pub send_transfer_transactions : Action (Option Job)
  unfolding transfer_for transfer_failure
  send_transfer_transactions =
      try_catch (select_jobs (has_id params.job_id) >>= transfer_for) transfer_failure
