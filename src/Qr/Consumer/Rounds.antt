-- ===== src/Qr/Consumer/Rounds.antt =====
-- What the consumer of the scans leaves in the database and on the stream after some rounds.
use mathlib.Core.List.{map-append, append_assoc, append-nil}
use mathlib.Core.Path.{subst}
use sd_practice_qr_code_gene.Base.{
  ℕ, Bool, true, false, Option, none, some, List, [], ◌∷◌, ◌++◌, map, ◌≡◌, refl, sym, ◌∙◌, ap,
  arith, ◌&&◌, leb, length, if◌then◌else◌, Bool-cases, inl, inr,
}
use sd_practice_qr_code_gene.Base.Text.{Text}
use sd_practice_qr_code_gene.Qr.Cache.{decode}
use sd_practice_qr_code_gene.Qr.Service.{ScanEvent, ScanFields, Database, fits_in, fits, all_fit}
use sd_practice_qr_code_gene.Qr.Consumer.{
  Read, failed, no_events, batch, scan_event, Consumed, consume, consume_all,
}

-- Whether the fields of all messages of a batch fit their columns.
pub short : {A : Type 0} → List (A × ScanFields) → Bool
short [] = true
short ((i, f) ∷ ms) =
    let rest = short ms in
    (leb (length f.token) 8 && leb (length f.user_agent) 500 && leb (length f.ip) 45) && rest

-- The messages up to the first batch that has a field too long for its column.
pub accepted : {A : Type 0} → List (Read A) → List (A × ScanFields)
accepted [] = []
accepted (failed ∷ reads) = accepted reads
accepted (no_events ∷ reads) = accepted reads
accepted (batch ms ∷ reads) = let rest = accepted reads in if short ms then ms ++ rest else []

-- Whether no batch has such a field.
pub all_short : {A : Type 0} → List (Read A) → Bool
all_short [] = true
all_short (failed ∷ reads) = all_short reads
all_short (no_events ∷ reads) = all_short reads
all_short (batch ms ∷ reads) = let rest = all_short reads in short ms && rest

-- A field that is empty is stored as none.
pub data OrNone : Text → Option Text → Type 0 where
  absent : OrNone [] none
  given : (c : ℕ) (s : Text) → OrNone (c ∷ s) (some (c ∷ s))

-- The row for a message.
pub record IsScanOf {A : Type 0} (m : A × ScanFields) (e : ScanEvent) : Type 0 where
  pub token : e.token ≡ m.1.token
  pub time : e.scanned_at ≡ m.1.ts
  pub user_agent : OrNone m.1.user_agent e.user_agent
  pub ip_address : OrNone m.1.ip e.ip_address

-- A row for each message, in order.
pub IsStored : {A : Type 0} → List (A × ScanFields) → List ScanEvent → Type 0
IsStored [] [] = Unit
IsStored [] (e ∷ es) = ⊥
IsStored (m ∷ ms) [] = ⊥
IsStored (m ∷ ms) (e ∷ es) = IsScanOf m e × IsStored ms es

decode-OrNone : (s : Text) → OrNone s (decode (some s))
unfolding decode
decode-OrNone [] = absent
decode-OrNone (c ∷ s) = given c s

fits_in-decode : (n : ℕ) (s : Text) → fits_in n (decode (some s)) ≡ leb (length s) n
unfolding decode fits_in
fits_in-decode n [] = ground arith
fits_in-decode n (c ∷ s) = refl

module _ {A : Type 0} where
  all_fit-short : (ms : List (A × ScanFields)) → all_fit (map (λ x. scan_event x.1) ms) ≡ short ms
  unfolding all_fit fits short scan_event
  all_fit-short [] = refl
  all_fit-short ((i, f) ∷ ms) =
      simp (fits_in-decode 500 f.user_agent, fits_in-decode 45 f.ip, all_fit-short ms)

  IsStored-events :
      (ms ns : List (A × ScanFields)) (es : List ScanEvent)
      → IsStored ns es
      → IsStored (ms ++ ns) (map (λ x. scan_event x.1) ms ++ es)
  unfolding IsStored scan_event
  IsStored-events [] ns es h = h
  IsStored-events ((i, f) ∷ ms) ns es h = (
    record {
      token = refl;
      time = refl;
      user_agent = decode-OrNone f.user_agent;
      ip_address = decode-OrNone f.ip;
    },
    IsStored-events ms ns es h,
  )

-- What the consumer leaves after some rounds.
pub record Stores (D : Database) {A : Type 0} (db : D.State) (reads : List (Read A))
    (c : Consumed D A) : Type 0 where
  pub events : List ScanEvent
  pub scans : D.scans c.db ≡ D.scans db ++ events
  pub stored : IsStored (accepted reads) events
  pub acked : c.acked ≡ map (λ x. x.0) (accepted reads)
  pub runs : c.runs ≡ all_short reads

module _ (D : Database) {A : Type 0} where
  -- Rounds that leave no trace.
  same-Stores :
      (db : D.State) (c : Consumed D A)
      → D.scans c.db ≡ D.scans db
      → c.acked ≡ []
      → (reads : List (Read A)) → accepted reads ≡ []
      → c.runs ≡ all_short reads
      → Stores D db reads c
  unfolding IsStored
  same-Stores db c scans none_acked reads nothing runs = record {
    events = [];
    scans = scans ∙ sym (append-nil (D.scans db));
    stored = subst (λ l. IsStored l []) (sym nothing) tt;
    acked = none_acked ∙ ap (map (λ x. x.0)) (sym nothing);
    runs = runs;
  }

  -- A round without messages.
  passed :
      (db : D.State) (reads others : List (Read A)) (c : Consumed D A)
      → accepted reads ≡ accepted others
      → all_short reads ≡ all_short others
      → Stores D db reads c
      → Stores D db others c
  passed db reads others c same also h = record {
    events = h.events;
    scans = h.scans;
    stored = subst (λ l. IsStored l h.events) same h.stored;
    acked = h.acked ∙ ap (map (λ x. x.0)) same;
    runs = h.runs ∙ also;
  }

  batch-Stores :
      (db : D.State) (m : A × ScanFields) (ms : List (A × ScanFields)) (reads : List (Read A))
      → ((db' : D.State) → Stores D db' reads (consume_all D db' reads))
      → Stores D db (batch (m ∷ ms) ∷ reads) (consume_all D db (batch (m ∷ ms) ∷ reads))
  unfolding consume_all consume accepted all_short
  batch-Stores db m ms reads rest =
      let es = map (λ x. scan_event x.1) (m ∷ ms) in
      let fit = all_fit-short (m ∷ ms) in
      elim (Bool-cases (short (m ∷ ms))) [
        | inl all ↦
            let (db', added, scans) = D.add_all_fits db es (fit ∙ all) in
            let later = rest db' in
            rw (added, consume)
              (record {
                events = es ++ later.events;
                scans =
                    later.scans
                    ∙ ap (λ l. l ++ later.events) scans
                    ∙ append_assoc (D.scans db) es later.events;
                stored =
                    rw (all, if◌then◌else◌)
                      (IsStored-events (m ∷ ms) (accepted reads) later.events later.stored);
                acked =
                    rw (all, if◌then◌else◌)
                      (ap (λ l. map (λ x. x.0) (m ∷ ms) ++ l) later.acked
                        ∙ sym (map-append (λ x. x.0) (m ∷ ms) (accepted reads)));
                runs = later.runs ∙ sym (ap (λ b. b && all_short reads) all);
              })
        | inr long ↦
            rw (D.add_all_long db es (fit ∙ long), consume)
              (same-Stores db (record { db = db; acked = []; runs = false }) refl refl
                (batch (m ∷ ms) ∷ reads) (rw (long, if◌then◌else◌) refl)
                (sym (ap (λ b. b && all_short reads) long)))
      ]

-- The consumer, over its rounds: up to the first batch with a field that is too long for its column,
-- it stores a row for each message that it reads, in order, with the message's token and time, and
-- its user agent and address, or none where these are empty, and acknowledges exactly these
-- messages; it ends at such a batch, of which nothing is stored or acknowledged, and goes on if there
-- is none.
pub consume_all-Stores :
    (D : Database) {A : Type 0} (db : D.State) (reads : List (Read A))
    → Stores D db reads (consume_all D db reads)
unfolding consume_all consume accepted all_short short
consume_all-Stores D db [] = same-Stores D db _ refl refl [] refl refl
consume_all-Stores D db (failed ∷ reads) =
    passed D db reads (failed ∷ reads) _ refl refl (consume_all-Stores D db reads)
consume_all-Stores D db (no_events ∷ reads) =
    passed D db reads (no_events ∷ reads) _ refl refl (consume_all-Stores D db reads)
consume_all-Stores D db (batch [] ∷ reads) =
    passed D db reads (batch [] ∷ reads) _ refl refl (consume_all-Stores D db reads)
consume_all-Stores D db (batch (m ∷ ms) ∷ reads) =
    batch-Stores D db m ms reads (λ db'. consume_all-Stores D db' reads)
