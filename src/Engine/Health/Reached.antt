-- ===== src/Engine/Health/Reached.antt =====
-- The depths in a report, and whether the broker was reached.
use z4j_celery.Prelude.{Bool, true, false, List, [], ◌∷◌, ◌≡◌, refl, ap}
use z4j_celery.Python.{
  Value, Exception, Outcome, returned, raised, Io, pure, raise, ◌>>=◌, try_then, handle, Runtime,
  hasattr, Settles, settled, Settles-then,
}
use z4j_celery.Engine.Workers.{Query, on_world}
use z4j_celery.Engine.Health.{
  Broker, no_depths, Probe, set_depth, probe_queue, probe_queues, redis_depth, amqp_depth,
  known_queues, probe_channel, probe_amqp, probe_depths, probe_connection, probe_inside,
  probe_broker,
}

module _ (rt : Runtime) where
  open rt use {World, call, attribute}

  abbrev Reached : Query Broker World → Type 0
  Reached s = s.found.broker_connected ≡ true

  abbrev Remains : {A : Type 0} → Probe rt A → Type 0
  Remains m = (s : Query Broker World) → Reached s → Settles Reached Reached (m s)

  Remains-on_world : {A : Type 0} (m : Io World A) → Remains (on_world m)
  Remains-on_world m s h = settled Reached Reached (m s.world).0 _ h h

  Remains-then :
      {A B : Type 0} (m : Probe rt A) (f : A → Probe rt B)
      → Remains m
      → ((a : A) → Remains (f a))
      → Remains (m >>= f)
  Remains-then m f h k s p = Settles-then Reached Reached Reached m f s (h s p) k

  -- A world's statement in front.
  asked :
      {A B : Type 0} (m : Io World A) (f : A → Probe rt B)
      → ((a : A) → Remains (f a))
      → Remains (on_world m >>= f)
  asked m f k = Remains-then (on_world m) f (Remains-on_world m) k

  Remains-handle :
      {A B : Type 0} (r : Outcome A) (s : Query Broker World) (f : A → Probe rt B)
      (g : Exception → Probe rt B)
      → Settles Reached Reached (r, s)
      → ((a : A) → Remains (f a))
      → ((e : Exception) → Remains (g e))
      → Settles Reached Reached (handle r f g s)
  Remains-handle (returned a) s f g p h k = h a s p
  Remains-handle (raised e) s f g p h k = k e s p

  Remains-try :
      {A B : Type 0} (m : Probe rt A) (f : A → Probe rt B) (g : Exception → Probe rt B)
      → Remains m
      → ((a : A) → Remains (f a))
      → ((e : Exception) → Remains (g e))
      → Remains (try_then m f g)
  Remains-try m f g h k l s p = Remains-handle (m s).0 (m s).1 f g (h s p) k l

  probe_queues-Remains :
      (depth_of : Value → Io World Value) (names : List Value)
      → Remains (probe_queues rt depth_of names)
  unfolding probe_queues
  probe_queues-Remains depth_of [] = λ s p. p
  probe_queues-Remains depth_of (name ∷ names) =
      Remains-then (probe_queue rt depth_of name) (λ _. probe_queues rt depth_of names)
        (Remains-try (on_world (depth_of name) >>= set_depth rt name) pure (λ _. pure tt)
          (asked (depth_of name) (set_depth rt name) (λ depth s p. p)) (λ _ s p. p) (λ _ s p. p))
        (λ _. probe_queues-Remains depth_of names)

  probe_amqp-Remains :
      (celery_app conn : Value) (has_channel : Bool)
      → Remains (probe_amqp rt celery_app conn has_channel)
  probe_amqp-Remains celery_app conn false = λ s p. p
  probe_amqp-Remains celery_app conn true =
      Remains-try (probe_channel rt celery_app conn) pure (λ _. pure tt)
        (asked (call conn "channel" [] []) _ (λ channel.
          asked (known_queues rt celery_app) (probe_queues rt (amqp_depth rt channel))
            (probe_queues-Remains (amqp_depth rt channel))))
        (λ _ s p. p) (λ _ s p. p)

  probe_depths-Remains :
      (celery_app conn transport : Value) (redis : Bool)
      → Remains (probe_depths rt celery_app conn transport redis)
  probe_depths-Remains celery_app conn transport true =
      asked (attribute transport "client") _ (λ client.
        asked (known_queues rt celery_app) (probe_queues rt (redis_depth rt client))
          (probe_queues-Remains (redis_depth rt client)))
  probe_depths-Remains celery_app conn transport false =
      asked (hasattr rt conn "channel") (probe_amqp rt celery_app conn)
        (probe_amqp-Remains celery_app conn)

  -- From here on the broker counts as reached, whatever was found before.
  probe_connection-Reached :
      (celery_app conn : Value) (s : Query Broker World)
      → Settles Reached Reached (probe_connection rt celery_app conn s)
  probe_connection-Reached celery_app conn s =
      asked (attribute conn "transport") _
        (λ transport.
          asked (hasattr rt transport "client") (probe_depths rt celery_app conn transport)
            (probe_depths-Remains celery_app conn transport))
        (record s { found = record s.found { broker_connected = true } }) refl

  abbrev IsNew : Query Broker World → Type 0
  IsNew s = s.found ≡ no_depths

  -- Depths only of a broker that was reached.
  abbrev pub IsHonest : Broker → Type 0
  IsHonest b = b.broker_connected ≡ false → b.queue_depths ≡ []

  abbrev Fair : Query Broker World → Type 0
  Fair s = IsHonest s.found

  Reached-Fair : (s : Query Broker World) → Reached s → Fair s
  Reached-Fair s h e = absurd (cc)

  IsNew-Fair : (s : Query Broker World) → IsNew s → Fair s
  IsNew-Fair s h e = ap (λ b. b.queue_depths) h

  weaken :
      {A : Type 0} (r : Outcome A) (s : Query Broker World)
      → Settles Reached Reached (r, s)
      → Settles Reached Fair (r, s)
  weaken (returned a) s h = h
  weaken (raised e) s h = Reached-Fair s h

  new_asked :
      {A B : Type 0} (m : Io World A) (f : A → Probe rt B)
      → ((a : A) (s : Query Broker World) → IsNew s → Settles Reached Fair (f a s))
      → (s : Query Broker World) → IsNew s
      → Settles Reached Fair ((on_world m >>= f) s)
  new_asked m f k s h =
      Settles-then IsNew Reached Fair (on_world m) f s
        (settled IsNew Fair (m s.world).0 _ h (λ e. ap (λ b. b.queue_depths) h)) k

  -- A probe that ends without an exception has reached the broker, and any other is fair.
  pub probe_broker-Reached :
      (celery_app : Value) (w : World)
      → Settles
          (λ s. s.found.broker_connected ≡ true)
          (λ s. IsHonest s.found)
          (probe_broker rt celery_app (record { found = no_depths; world = w }))
  unfolding probe_broker
  probe_broker-Reached celery_app w =
      new_asked (call celery_app "connection_for_read" [] []) (probe_inside rt celery_app)
        (λ outer. new_asked (call outer "__enter__" [] []) _ (λ conn s h.
          let body = probe_connection rt celery_app conn s in
          weaken _ _ (
            Remains-handle body.0 body.1 _ _ (probe_connection-Reached celery_app conn s)
              (λ _. asked (call outer "__exit__" [] []) (λ _. pure tt) (λ _ t p. p))
              (λ e. asked (call outer "__exit__" [] []) (λ _. raise e) (λ _ t p. p)))))
        (record { found = no_depths; world = w }) refl
