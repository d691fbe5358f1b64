-- ===== src/Subscriptions/Reach.antt =====
-- subscriptions.py: the states that the methods reach, in any order, with the notifications between the
-- awaits of `on_reconnect`. `subscribe` and `_remove_consumer` hold the lock to their end, so
-- they run before `on_reconnect` or after it.
use exec_rest_api.Base.{ℕ, ◌≡◌, Bool, none, some, List, [], ◌∷◌, Text, ◌⊎◌}
use exec_rest_api.Json.{Json, Fields, Result, ok, err}
use exec_rest_api.Subscriptions.{
  Manager, WsReply, ConsumerStream, Client, next_event, aclose, on_notification, subscribe,
  reconnect_begins, resubscribe, reconnect_ends,
}
use exec_rest_api.Subscriptions.Invariant.{new_manager}

-- the manager, and the streams that `subscribe` has given out
abbrev pub System : Type 0
System = Manager × List ConsumerStream

abbrev pub give : Result ConsumerStream → List ConsumerStream → List ConsumerStream
give (ok c) cs = c ∷ cs
give (err e) cs = cs

-- an exception in the callback leaves the manager as it was
abbrev pub notified : Result Manager → Manager → Manager
notified (ok n) m = n
notified (err e) m = m

abbrev pub Given : ConsumerStream → List ConsumerStream → Type 0
Given c [] = ⊥
Given c (d ∷ cs) = (c ≡ d) ⊎ Given c cs

module _ (canonicalize : Json → Text) where
  abbrev pub subscribing : Bool → WsReply → Text → Json → System → System
  subscribing connected reply kind params (m, cs) =
      let (result, after) = subscribe canonicalize connected reply kind params m in
      (after, give result cs)

  -- one uninterrupted run of the program
  pub data ManagerStep : System → System → Type 0 where
    notifies :
        (m : Manager) (cs : List ConsumerStream) (payload : Fields)
        → ManagerStep (m, cs) (notified (on_notification payload m) m, cs)
    subscribes :
        (m : Manager) (cs : List ConsumerStream) (connected : Bool) (reply : WsReply) (kind : Text)
        (params : Json)
        → m.visiting ≡ none
        → ManagerStep (m, cs) (subscribing connected reply kind params (m, cs))
    closes :
        (m : Manager) (cs : List ConsumerStream) (connected : Bool) (c : Client)
        → m.visiting ≡ none
        → Given c.stream cs
        → ManagerStep (m, cs) ((aclose canonicalize connected c m).1.1, cs)
    takes :
        (m : Manager) (cs : List ConsumerStream) (c : Client)
        → Given c.stream cs
        → ManagerStep (m, cs) ((next_event c m).1, cs)
    begins :
        (m : Manager) (cs : List ConsumerStream)
        → m.visiting ≡ none
        → ManagerStep (m, cs) (reconnect_begins canonicalize m, cs)
    visits :
        (m : Manager) (cs : List ConsumerStream) (reply : WsReply) (r : ℕ) (rs : List ℕ)
        → m.visiting ≡ some (r ∷ rs)
        → ManagerStep (m, cs) (resubscribe canonicalize reply r rs m, cs)
    ends :
        (m : Manager) (cs : List ConsumerStream)
        → m.visiting ≡ some []
        → ManagerStep (m, cs) (reconnect_ends canonicalize m, cs)

  pub data Reach : System → Type 0 where
    starts : Reach (new_manager, [])
    next : {s t : System} → Reach s → ManagerStep s t → Reach t
