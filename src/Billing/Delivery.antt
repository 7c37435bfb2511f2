-- ===== src/Billing/Delivery.antt =====
-- Webhook deliveries: an event is applied once, and a failure leaves nothing but its mark.
use rubrica_back.Base.{
  ℕ, String, Bool, true, false, ◌≡◌, Option, List, arith, inl, inr, Option-cases, str_eq_iff, subst,
  sym, ap, ◌∙◌, refl, ◌&&◌, ◌||◌, not, is_none, Bool-cases,
}
use rubrica_back.Base.Actions.{Error, Result, ok, err}
use rubrica_back.Base.Dict.{lookup_text, insert_text, lookup_text-insert_text}
use rubrica_back.Store.{Instant, BillingEvent, Database, flush_accounts}
use rubrica_back.Billing.Product.{Settings}
use rubrica_back.Billing.Events.{BusinessIdentity}
use rubrica_back.Billing.Webhook.{
  Event, genuine, Provider, World, is_settled, settles, tenant_of_event, business_identity, refers,
  claim_event, store_event, mark_failed, apply_and_notify, process_event, attempt_event, new_row,
  handle_event, receive_webhook,
}
use rubrica_back.Billing.Effects.{event_kind}
use rubrica_back.Tenant.Identity.{Registration}

module _ (settings : Settings) (protect : String → Option Registration) (strip : String → String)
    (provider : Provider) where
  -- The row of the event is not stored, and cannot be: its tenant is not stored either.
  abbrev pub is_refused : Event → World → Bool
  is_refused e w =
      is_none (lookup_text e.id w.database.events)
      && not (refers (tenant_of_event settings e.resource w.database) w.database)

  -- What a call has left that began with an event that was not settled: where it is applied, the event
  -- is settled; it is a duplicate only where its row could not be stored, and then nothing changes.
  abbrev Settled : Event → World → Result Bool × World → Type 0
  Settled e w (ok false, v) = settles (lookup_text e.id v.database.events) ≡ true
  Settled e w (ok true, v) = (v ≡ w) × (is_refused e w ≡ true)
  Settled e w (err _, v) = Unit

  settles-insert :
      (i : String) (row : BillingEvent) (d : List (String × BillingEvent))
      → is_settled row.status ≡ true
      → settles (lookup_text i (insert_text i row d)) ≡ true
  settles-insert i row d h = grind (arith, lookup_text-insert_text, str_eq_iff)

  -- A transaction that ended well has applied the event and settled it.
  abbrev Applies : String → Result Bool × World → Type 0
  Applies i (ok d, w) = (d ≡ false) × (settles (lookup_text i w.database.events) ≡ true)
  Applies i (err _, w) = Unit

  apply_and_notify-Applies :
      (now : Instant) (e : Event) (t : Option ℕ) (identity : Option BusinessIdentity)
      → (row : BillingEvent) (w : World)
      → Applies e.id (apply_and_notify settings protect strip provider now e t identity row w)
  unfolding apply_and_notify flush_accounts
  apply_and_notify-Applies now e t identity row w = grind (arith, settles-insert)

  process_event-Applies :
      (now : Instant) (e : Event) (t : Option ℕ) (identity : Option BusinessIdentity) (w : World)
      → settles (lookup_text e.id w.database.events) ≡ false
      → Applies e.id (process_event settings protect strip provider now e t identity w)
  unfolding process_event
  process_event-Applies now e t identity w h =
      elim (Option-cases (lookup_text e.id w.database.events)) [
        | inl missing ↦ grind (arith, missing)
        | inr (row, found) ↦
            grind (arith, found, h, apply_and_notify-Applies now e t identity row w)
      ]

  attempt_event-Applies :
      (now : Instant) (e : Event) (t : Option ℕ) (identity : Option BusinessIdentity) (w : World)
      → settles (lookup_text e.id w.database.events) ≡ false
      → Applies e.id (attempt_event settings protect strip provider now e t identity w)
  unfolding attempt_event
  attempt_event-Applies now e t identity w h =
      grind (arith, process_event-Applies now e t identity w h)

  store_event-settles :
      (row : BillingEvent) (db : Database)
      → settles (lookup_text row.provider_event_id db.events) ≡ false
      → is_settled row.status ≡ false
      → settles (lookup_text row.provider_event_id (store_event row db).1.events) ≡ false
  unfolding store_event claim_event
  store_event-settles row db h k = grind (arith, lookup_text-insert_text, str_eq_iff)

  -- The row is stored unless it is refused.
  store_event-claimed :
      (row : BillingEvent) (db : Database)
      → (store_event row db).0
        ≡ (is_none (lookup_text row.provider_event_id db.events) && not (refers row.tenant_id db))
  unfolding store_event claim_event
  store_event-claimed row db = ground arith

  handle_event-Settled :
      (now : Instant) (e : Event) (w : World)
      → settles (lookup_text e.id w.database.events) ≡ false
      → Settled e w (handle_event settings protect strip provider now e w)
  unfolding handle_event
  handle_event-Settled now e w h =
      let tenant = tenant_of_event settings e.resource w.database in
      let row = new_row settings protect strip provider e tenant in
      grind (
        arith,
        store_event-claimed row w.database,
        store_event-settles row w.database h refl,
        attempt_event-Applies now e tenant,
      )

  receive_webhook_unsettled :
      (now : Instant) (payload signature : String) (w : World) (e : Event)
      → provider.construct_webhook_event payload signature ≡ genuine e
      → settles (lookup_text e.id w.database.events) ≡ false
      → receive_webhook settings protect strip provider now payload signature w
        ≡ handle_event settings protect strip provider now e w
  unfolding receive_webhook
  receive_webhook_unsettled now payload signature w e h k = ground (arith, h, k)

  receive_webhook_again :
      (now : Instant) (payload signature : String) (w : World) (e : Event)
      → provider.construct_webhook_event payload signature ≡ genuine e
      → settles (lookup_text e.id w.database.events) ≡ true
      → receive_webhook settings protect strip provider now payload signature w ≡ (ok true, w)
  unfolding receive_webhook
  receive_webhook_again now payload signature w e h done = ground arith

  -- What an answer means for the event of a delivery: applied, it is never applied again; a
  -- duplicate, nothing was done.
  abbrev pub Answers : Instant → String → String → Event → World → World → Bool → Type 0
  Answers later payload signature e w w' false =
      receive_webhook settings protect strip provider later payload signature w' ≡ (ok true, w')
  Answers later payload signature e w w' true =
      (w' ≡ w) × ((settles (lookup_text e.id w.database.events) || is_refused e w) ≡ true)

  Settled-Answers :
      (later : Instant) (payload signature : String) (e e' : Event) (w w' : World)
      (duplicate : Bool)
      → provider.construct_webhook_event payload signature ≡ genuine e'
      → e'.id ≡ e.id
      → Settled e w (ok duplicate, w')
      → Answers later payload signature e w w' duplicate
  Settled-Answers later payload signature e e' w w' true h same k = (k.0, ground (arith, k.1))
  Settled-Answers later payload signature e e' w w' false h same k =
      receive_webhook_again later payload signature w' e' h (rw same k)

  settles-Answers :
      (later : Instant) (payload signature : String) (e : Event) (w w' : World) (duplicate : Bool)
      → settles (lookup_text e.id w.database.events) ≡ true
      → ◌≡◌ {A = Result Bool × World} (ok true, w) (ok duplicate, w')
      → Answers later payload signature e w w' duplicate
  settles-Answers later payload signature e w w' true h k =
      (sym (ap (λ (r : Result Bool × World). r.1) k), ground (arith, h))
  settles-Answers later payload signature e w w' false h k = absurd (ground (arith, k))

  -- A webhook that was answered as applied is not applied again: a delivery of an event with the same
  -- identifier, right after it and at any time, is answered as a duplicate, and changes and sends
  -- nothing. One that was answered as a duplicate has changed and sent nothing: its event was settled
  -- before, or it is not stored and names a tenant that is not stored.
  pub receive_webhook_twice :
      (now later : Instant) (payload signature payload' signature' : String) (e e' : Event)
      → (w w' : World) (duplicate : Bool)
      → provider.construct_webhook_event payload signature ≡ genuine e
      → provider.construct_webhook_event payload' signature' ≡ genuine e'
      → e'.id ≡ e.id
      → receive_webhook settings protect strip provider now payload signature w ≡ (ok duplicate, w')
      → Answers later payload' signature' e w w' duplicate
  receive_webhook_twice now later payload signature payload' signature' e e' w w' duplicate first
        second same done =
      elim (Bool-cases (settles (lookup_text e.id w.database.events))) [
        | inl settled ↦
            settles-Answers later payload' signature' e w w' duplicate settled
              (sym (receive_webhook_again now payload signature w e first settled) ∙ done)
        | inr unsettled ↦
            Settled-Answers later payload' signature' e e' w w' duplicate second same (
              subst (Settled e w)
                (sym (receive_webhook_unsettled now payload signature w e first unsettled) ∙ done)
                (handle_event-Settled now e w unsettled))
      ]

  -- A call that raised has left this database.
  abbrev LeavesOnError : Database → Result Bool × World → Type 0
  LeavesOnError db (ok _, v) = Unit
  LeavesOnError db (err _, v) = v.database ≡ db

  process_event-LeavesOnError :
      (now : Instant) (e : Event) (t : Option ℕ) (identity : Option BusinessIdentity) (w : World)
      → LeavesOnError w.database (process_event settings protect strip provider now e t identity w)
  unfolding process_event
  process_event-LeavesOnError now e t identity w = grind arith

  -- The error with which the event cannot be applied, if any: its business identity is not
  -- available, or its transaction raises.
  abbrev pub application : Instant → Event → World → Result Bool
  application now e w =
      let tenant : Option ℕ = tenant_of_event settings e.resource w.database in
      let row = new_row settings protect strip provider e tenant in
      elim (business_identity settings provider (event_kind e.type) tenant e.resource) [
        | err x ↦ err x
        | ok identity ↦
            (process_event settings protect strip provider now e tenant identity
              (record w { database = (store_event row w.database).1 })).0
      ]

  -- The call raised this error; no table but the one of the events has changed, and the event is not
  -- settled, so that the next delivery tries it again.
  unfoldable pub Unharmed : String → World → Error → Result Bool × World → Type 0
  Unharmed i w x (r, v) =
      (r ≡ err x)
      × (record v.database { events = w.database.events } ≡ w.database)
      × (settles (lookup_text i v.database.events) ≡ false)

  attempt_event_raises :
      (now : Instant) (e : Event) (t : Option ℕ) (identity : Option BusinessIdentity) (w : World)
      (x : Error)
      → (process_event settings protect strip provider now e t identity w).0 ≡ err x
      → ((attempt_event settings protect strip provider now e t identity w).0 ≡ err x)
        × ((attempt_event settings protect strip provider now e t identity w).1.database
            ≡ mark_failed e.id w.database)
  unfolding attempt_event
  attempt_event_raises now e t identity w x h =
      grind (arith, h, process_event-LeavesOnError now e t identity w)

  failed_row :
      (row : BillingEvent) (db : Database)
      → settles (lookup_text row.provider_event_id db.events) ≡ false
      → let failed_db = mark_failed row.provider_event_id (store_event row db).1 in
        (record failed_db { events = db.events } ≡ db)
        × (settles (lookup_text row.provider_event_id failed_db.events) ≡ false)
  unfolding store_event claim_event mark_failed
  failed_row row db h = grind (arith, lookup_text-insert_text, str_eq_iff)

  handle_event-Unharmed :
      (now : Instant) (e : Event) (w : World) (x : Error)
      → settles (lookup_text e.id w.database.events) ≡ false
      → is_refused e w ≡ false
      → application now e w ≡ err x
      → Unharmed e.id w x (handle_event settings protect strip provider now e w)
  unfolding handle_event Unharmed
  handle_event-Unharmed now e w x h stored raises =
      let tenant : Option ℕ = tenant_of_event settings e.resource w.database in
      let row = new_row settings protect strip provider e tenant in
      grind (
        arith,
        raises,
        stored,
        store_event-claimed row w.database,
        failed_row row w.database h,
        attempt_event_raises now e tenant,
      )

  -- A webhook whose event is not settled, can be stored, and cannot be applied, as its business
  -- identity is not available or its transaction raises, raises that error. It leaves every table but
  -- the one of the events as it was; the event is not settled, so that the next delivery tries it
  -- again.
  pub receive_webhook-Unharmed :
      (now : Instant) (payload signature : String) (e : Event) (w : World) (x : Error)
      → provider.construct_webhook_event payload signature ≡ genuine e
      → settles (lookup_text e.id w.database.events) ≡ false
      → is_refused e w ≡ false
      → application now e w ≡ err x
      → Unharmed e.id w x (receive_webhook settings protect strip provider now payload signature w)
  receive_webhook-Unharmed now payload signature e w x first unsettled stored raises =
      subst (Unharmed e.id w x)
        (sym (receive_webhook_unsettled now payload signature w e first unsettled))
        (handle_event-Unharmed now e w x unsettled stored raises)
