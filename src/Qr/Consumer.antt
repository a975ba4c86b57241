-- ===== src/Qr/Consumer.antt =====
-- qr_code_generator/scaffold/app/consumer.py: one round of the loop, and the rounds in a row. What
-- `xreadgroup` returns in a round is an argument; a message is its id and its fields.
pub mod Rounds
use sd_practice_qr_code_gene.Base.{
  ℕ, Bool, true, false, none, some, List, [], ◌∷◌, ◌++◌, map, if◌then◌else◌,
}
use sd_practice_qr_code_gene.Base.Text.{Text}
use sd_practice_qr_code_gene.Qr.Cache.{decode}
use sd_practice_qr_code_gene.Qr.Service.{ScanEvent, ScanFields, Database}

pub data Read (MessageId : Type 0) : Type 0 where
  -- `xreadgroup` raised
  failed : Read MessageId
  no_events : Read MessageId
  batch : List (MessageId × ScanFields) → Read MessageId

unfoldable pub scan_event : ScanFields → ScanEvent
scan_event f = record {
  token = f.token;
  scanned_at = f.ts;
  user_agent = decode (some f.user_agent);
  ip_address = decode (some f.ip);
}

-- The database and the ids that are acknowledged, and whether the loop goes on.
pub record Consumed (D : Database) (MessageId : Type 0) : Type 0 where
  pub db : D.State
  pub acked : List MessageId
  pub runs : Bool

module _ (D : Database) {MessageId : Type 0} where
  -- An empty batch is skipped. A commit that raises ends the loop, before the acknowledgement.
  unfoldable pub consume : D.State → Read MessageId → Consumed D MessageId
  consume db failed = record { db = db; acked = []; runs = true }
  consume db no_events = record { db = db; acked = []; runs = true }
  consume db (batch []) = record { db = db; acked = []; runs = true }
  consume db (batch (m ∷ messages)) =
      elim (D.add_all db (map (λ x. scan_event x.1) (m ∷ messages))) [
        | none ↦ record { db = db; acked = []; runs = false }
        | some db' ↦ record { db = db'; acked = map (λ x. x.0) (m ∷ messages); runs = true }
      ]

  unfoldable pub consume_all : D.State → List (Read MessageId) → Consumed D MessageId
  consume_all db [] = record { db = db; acked = []; runs = true }
  consume_all db (r ∷ reads) =
      let one = consume db r in
      let rest = consume_all one.db reads in
      if one.runs then record rest { acked = one.acked ++ rest.acked } else one
