-- ===== src/Worker/Loop/Settled.antt =====
-- What a turn of the worker acknowledges.
use deploy_hub.Prelude.{
  ℕ, ◌+◌, ◌≤◌, String, ◌==◌, ◌≡◌, refl, sym, ap, subst, ◌∙◌, ◌⊎◌, inl, inr, Bool, if◌then◌else◌,
  Option, none, some, List, [], ◌∷◌, ◌++◌, append_assoc, count, arith,
}
use deploy_hub.Action.{Exn, Action, Result, ok, raised, resume, ◌>>◌, handle, pure}
use deploy_hub.Action.Counts.{Counts}
use deploy_hub.Worker.World.{World, Message, issue, inc, retries}
use deploy_hub.Worker.Queue.{Entry}
use deploy_hub.Worker.Queue.Recovery.{Scan, recover-Scan}
use deploy_hub.Worker.Process.{Answers, process_message}
use deploy_hub.Worker.Process.Settled.{tally, is_ack, process_message-CountsOf}
use deploy_hub.Worker.Loop.{
  Turn, process_all, process_claimed, process_streams, turn_from, turn_after, turn,
}

abbrev pub has_id : String → Entry → Bool
has_id k e = e.0 == k

-- Every id has been acknowledged as often as it stands among these messages.
abbrev pub Acked : List Entry → World → World → Type 0
Acked es w v = (k : String) → tally (is_ack k) v ≡ count (has_id k) es + tally (is_ack k) w

-- The messages before one whose handling raised have been acknowledged, and no other.
pub record Stopped (handling : String → Answers) (es : List Entry) (w v : World) : Type 0 where
  pub done : List Entry
  pub next : Entry
  pub rest : List Entry
  pub before : World
  pub error : Exn
  pub split : es ≡ done ++ next ∷ rest
  pub acked : Acked done w v
  pub raises : (process_message next.0 next.1 (handling next.0) before).0 ≡ raised error

-- The messages of an answer of XREADGROUP.
abbrev pub messages_of : List (String × List Entry) → List Entry
messages_of [] = []
messages_of ((s, es) ∷ streams) = es ++ messages_of streams

module _ (handling : String → Answers) where
  abbrev Handled : List Entry → World → Result (Unit {0}) × World → Type 0
  Handled es w (ok _, v) = Acked es w v
  Handled es w (raised e, v) = Stopped handling es w v

  count-append :
      (p : Entry → Bool) (xs ys : List Entry) → count p (xs ++ ys) ≡ count p xs + count p ys
  count-append p [] ys = omega arith
  count-append p (x ∷ xs) ys = omega (arith, count-append p xs ys)

  Acked-append :
      (es fs : List Entry) (w v u : World) → Acked es w v → Acked fs v u → Acked (es ++ fs) w u
  Acked-append es fs w v u h g k = omega (arith, h k, g k, count-append (has_id k) es fs)

  -- What comes behind messages that were acknowledged.
  Handled-after :
      (es fs : List Entry) (w v : World) (p : Result (Unit {0}) × World)
      → Acked es w v
      → Handled fs v p
      → Handled (es ++ fs) w p
  Handled-after es fs w v (ok _, u) h g = Acked-append es fs w v u h g
  Handled-after es fs w v (raised e, u) h g = record {
    done = es ++ g.done;
    next = g.next;
    rest = g.rest;
    before = g.before;
    error = g.error;
    split = ap (◌++◌ es) g.split ∙ sym (append_assoc es g.done (g.next ∷ g.rest));
    acked = Acked-append es g.done w v u h g.acked;
    raises = g.raises;
  }

  -- One loop after another.
  Handled-bind :
      (es fs : List Entry) (w : World) (p : Result (Unit {0}) × World) (f : Action World Unit)
      → Handled es w p
      → ((v : World) → Handled fs v (f v))
      → Handled (es ++ fs) w (resume p.0 (λ _. f) p.1)
  Handled-bind es fs w (ok _, v) f h g = Handled-after es fs w v (f v) h (g v)
  Handled-bind es fs w (raised e, v) f h g = record {
    done = h.done;
    next = h.next;
    rest = h.rest ++ fs;
    before = h.before;
    error = h.error;
    split = ap (λ l. l ++ fs) h.split ∙ append_assoc h.done (h.next ∷ h.rest) fs;
    acked = h.acked;
    raises = h.raises;
  }

  -- The handling of one message.
  one-Handled :
      (k : String) (m : Message) (w : World) (p : Result (Unit {0}) × World)
      → process_message k m (handling k) w ≡ p
      → ((id : String) → Counts (tally (is_ack id)) (if k == id then 1 else 0) w p)
      → Handled ((k, m) ∷ []) w p
  one-Handled k m w (ok _, v) h c = λ id. omega (arith, c id)
  one-Handled k m w (raised e, v) h c = record {
    done = [];
    next = (k, m);
    rest = [];
    before = w;
    error = e;
    split = refl;
    acked = λ id. omega (arith, c id);
    raises = ap (λ p. p.0) h;
  }

  message-Handled :
      (k : String) (m : Message) (w : World)
      → Handled ((k, m) ∷ []) w (process_message k m (handling k) w)
  message-Handled k m w =
      one-Handled k m w (process_message k m (handling k) w) refl
        (λ id. process_message-CountsOf k id m (handling k) w)

  process_all-Handled : (es : List Entry) (w : World) → Handled es w (process_all handling es w)
  unfolding process_all
  process_all-Handled [] w = λ k. omega arith
  process_all-Handled ((k, m) ∷ es) w =
      Handled-bind ((k, m) ∷ []) es w (process_message k m (handling k) w) (process_all handling es)
        (message-Handled k m w) (process_all-Handled es)

  -- A count of retries acknowledges nothing.
  Handled-retry :
      (es : List Entry) (w : World) (p : Result (Unit {0}) × World)
      → Handled es (issue (inc retries) w) p
      → Handled es w p
  Handled-retry es w (ok _, v) h = λ k. omega (arith, h k)
  Handled-retry es w (raised e, v) h = record {
    done = h.done;
    next = h.next;
    rest = h.rest;
    before = h.before;
    error = h.error;
    split = h.split;
    acked = λ k. omega (arith, h.acked k);
    raises = h.raises;
  }

  process_claimed-Handled :
      (es : List Entry) (w : World) → Handled es w (process_claimed handling es w)
  unfolding process_claimed
  process_claimed-Handled [] w = λ k. omega arith
  process_claimed-Handled ((k, m) ∷ es) w =
      let v : World = issue (inc retries) w in
      Handled-retry ((k, m) ∷ es) w (process_claimed handling ((k, m) ∷ es) w) (
        Handled-bind ((k, m) ∷ []) es v (process_message k m (handling k) v)
          (process_claimed handling es) (message-Handled k m v) (process_claimed-Handled es))

  process_streams-Handled :
      (streams : List (String × List Entry)) (w : World)
      → Handled (messages_of streams) w (process_streams handling streams w)
  unfolding process_streams
  process_streams-Handled [] w = λ k. omega arith
  process_streams-Handled ((s, es) ∷ streams) w =
      Handled-bind es (messages_of streams) w (process_all handling es w)
        (process_streams handling streams) (process_all-Handled es w)
        (process_streams-Handled streams)

  settled :
      (es : List Entry) (w : World) (p : Result (Unit {0}) × World)
      → Handled es w p
      → Acked es w (handle p.0 (λ _. pure tt) p.1).1
        ⊎ Stopped handling es w (handle p.0 (λ _. pure tt) p.1).1
  settled es w (ok _, v) h = inl h
  settled es w (raised e, v) h = inr h

-- What has happened to the messages after a turn.
abbrev pub Settled : Turn → List Entry → World → Option World → Type 0
Settled t es w none = ⊥
Settled t es w (some v) = Acked es w v ⊎ Stopped t.handling es w v

turn_from-Settled :
    (t : Turn) (claimed : List Entry) (streams : List (String × List Entry)) (w : World)
    → t.get_messages ≡ ok streams
    → Settled t (claimed ++ messages_of streams) w (some (turn_from t (ok claimed) w).1)
unfolding turn_from
turn_from-Settled t claimed streams w m = rw m (
    settled t.handling (claimed ++ messages_of streams) w
      ((process_claimed t.handling claimed >> process_streams t.handling streams) w)
      (Handled-bind t.handling claimed (messages_of streams) w
        (process_claimed t.handling claimed w) (process_streams t.handling streams)
        (process_claimed-Handled t.handling claimed w)
        (process_streams-Handled t.handling streams)))

-- If Redis answers both reads of a turn and the scan of the pending messages needs no more calls than
-- `fuel`, then the turn ends, and it has acknowledged each message that was claimed or read once, and
-- no other id; or the handling of one raised, and it has acknowledged just those before that one, the
-- claimed first.
pub turn-Settled :
    (fuel k : ℕ) (t : Turn) (claimed : List Entry) (streams : List (String × List Entry))
    (w : World)
    → Scan t.claim 0 "0-0" k claimed
    → k ≤ fuel
    → t.get_messages ≡ ok streams
    → Settled t (claimed ++ messages_of streams) w (turn fuel t w)
unfolding turn turn_after
turn-Settled fuel k t claimed streams w c le m =
    subst (λ o. Settled t (claimed ++ messages_of streams) w (turn_after t w o))
      (sym (recover-Scan t.claim k fuel claimed c le)) (turn_from-Settled t claimed streams w m)
