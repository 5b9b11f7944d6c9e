-- ===== src/Tunnel/Connection/Closed.antt =====
-- A connection that was closed stays so.
use wisper.Prelude.{
  ◌≡◌, refl, sym, ◌∙◌, inl, inr, Bool, true, false, not, ◌&&◌, List, [], ◌∷◌, if◌then◌else◌,
  Bool-cases, Bytes, subst, if-both,
}
use wisper.Prelude.Text.{TextCodec}
use wisper.Tunnel.Connection.{
  Promise, rejected, Connection, settle, on_smux_close, close, Event, message, ws_closed, ws_error,
  smux_closed, close_call, on_message, step, run,
}

-- Closed for good, with what was fed so far.
pub record IsOver (fed : List Bytes) (c : Connection) : Type 0 where
  pub closed : c.closed ≡ true
  pub unbound : c.bound ≡ false
  pub no_smux : c.smux ≡ false
  pub same_fed : c.fed ≡ fed

settle-IsOver :
    (outcome : Promise) (fed : List Bytes) (c : Connection)
    → IsOver fed c
    → IsOver fed (settle outcome c)
unfolding settle
settle-IsOver outcome fed c over = record {
  closed = over.closed;
  unbound = over.unbound;
  no_smux = over.no_smux;
  same_fed = over.same_fed;
}

on_smux_close-IsOver :
    (fed : List Bytes) (c : Connection) → IsOver fed c → IsOver fed (on_smux_close c)
unfolding on_smux_close
on_smux_close-IsOver fed c over = record {
  closed = over.closed;
  unbound = refl;
  no_smux = over.no_smux;
  same_fed = over.same_fed;
}

close-closes : (smux_open : Bool) (c : Connection) → IsOver c.fed (close smux_open c)
unfolding close on_smux_close
close-closes smux_open c = elim (Bool-cases (c.smux && smux_open)) [
  | inl calls ↦ rw calls (record { closed = refl; unbound = refl; no_smux = refl; same_fed = refl })
  | inr silent ↦
      rw silent (record { closed = refl; unbound = refl; no_smux = refl; same_fed = refl })
]

retarget : {fed fed' : List Bytes} {c : Connection} → fed ≡ fed' → IsOver fed c → IsOver fed' c
retarget e over = record {
  closed = over.closed;
  unbound = over.unbound;
  no_smux = over.no_smux;
  same_fed = over.same_fed ∙ e;
}

if_true : {A : Type 0} (b : Bool) {x : A} (y : A) → b ≡ true → (if b then x else y) ≡ x
if_true true y h = refl
if_true false y h = absurd (cc h)

module _ (codec : TextCodec) where
  on_message-closed :
      (payload : Bytes) (c : Connection) → c.closed ≡ true → on_message codec payload c ≡ c
  unfolding on_message
  on_message-closed payload c over = if_true c.closed _ over

  step-IsOver :
      (e : Event) (fed : List Bytes) (c : Connection) → IsOver fed c → IsOver fed (step codec e c)
  unfolding step
  step-IsOver (message payload) fed c over =
      subst (IsOver fed) (sym (on_message-closed payload c over.closed)) over
  step-IsOver ws_closed fed c over =
      on_smux_close-IsOver fed _ (if-both (IsOver fed) _ (settle-IsOver rejected fed c over) over)
  step-IsOver ws_error fed c over =
      if-both (IsOver fed) (not c.bound) (settle-IsOver rejected fed c over) over
  step-IsOver smux_closed fed c over = on_smux_close-IsOver fed c over
  step-IsOver (close_call smux_open) fed c over = retarget over.same_fed (close-closes smux_open c)

  run-IsOver :
      (es : List Event) (fed : List Bytes) (c : Connection)
      → IsOver fed c
      → IsOver fed (run codec es c)
  unfolding run
  run-IsOver [] fed c over = over
  run-IsOver (e ∷ es) fed c over = run-IsOver es fed (step codec e c) (step-IsOver e fed c over)

  -- After `close()`, whatever messages, errors and closing events still come: the connection is closed
  -- and not bound, it has no multiplexer, and nothing more was fed to one.
  pub run-close-IsOver :
      (es : List Event) (smux_open : Bool) (c : Connection)
      → IsOver c.fed (run codec es (close smux_open c))
  run-close-IsOver es smux_open c =
      run-IsOver es c.fed (close smux_open c) (close-closes smux_open c)
