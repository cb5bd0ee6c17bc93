-- ===== src/Broker/Request/Stream.antt =====
-- A connection: the requests of a stream are served one by one, in order.
use ome_kafka_bridge.Common.{
  ℕ, zero, suc, ◌%◌, ◌^◌, ◌≤◌, ◌<◌, ◌≡◌, ◌∙◌, refl, arith, false, le→ltb, lt→ltb, List, [], ◌∷◌,
  ◌++◌, append_assoc, append-nil, sym, Bytes, length, length-append, drop, take-append, drop-append,
  All, Option, none, some, pos, int32,
}
use ome_kafka_bridge.Binary.{be32, from_be32}
use ome_kafka_bridge.Binary.Fixed.{from_be32-be32}
use ome_kafka_bridge.Broker.Outcome.{Outcome, done, panic, stuck, bind}
use ome_kafka_bridge.Broker.State.{Broker}
use ome_kafka_bridge.Broker.Writer.Appends.{concat_map}
use ome_kafka_bridge.Broker.Request.Conn.{
  max_request, invalid_size, frame, continue_with, handle_conn_loop, handle_conn,
}
use ome_kafka_bridge.Broker.Request.{handle_request}
use ome_kafka_bridge.Broker.Request.Safety.{Served, handle_request-Served}

abbrev pub Handler : Type 0
Handler = Broker → Bytes → Outcome (Option Bytes × Broker)

-- The size is positive and within the limit.
abbrev pub IsBody : Bytes → Type 0
IsBody body = (1 ≤ length body) × (length body ≤ max_request)

-- Two ways to go on that agree on every broker that is as open as `b` agree after a request.
bind-agree :
    (b : Broker) (o : Outcome (Option Bytes × Broker))
    (f g : Broker → Bytes → Outcome (Bytes × Broker)) (output : Bytes)
    → Served b o
    → ((b' : Broker) (output' : Bytes) → b'.closed ≡ b.closed → f b' output' ≡ g b' output')
    → bind o (continue_with f output) ≡ bind o (continue_with g output)
unfolding continue_with
bind-agree b (done (none, b')) f g output h k = refl
bind-agree b (done (some response, b')) f g output h k = k b' (output ++ frame response) h.closed
bind-agree b panic f g output h k = refl
bind-agree b stuck f g output h k = refl

int32-size :
    (body rest : Bytes) → IsBody body → int32 (from_be32 (frame body ++ rest)) ≡ pos (length body)
unfolding frame int32
int32-size body rest h =
    rw (append_assoc, from_be32-be32 (length body % 2 ^ 32) (body ++ rest) (omega arith))
      (ground arith)

drop-frame : (body rest : Bytes) → drop 4 (frame body ++ rest) ≡ body ++ rest
unfolding frame be32
drop-frame body rest = refl

length-frame : (body rest : Bytes) → 4 ≤ length (frame body ++ rest)
unfolding frame be32
length-frame body rest = omega arith

invalid_size-IsBody : (body : Bytes) → IsBody body → invalid_size (pos (length body)) ≡ false
unfolding invalid_size
invalid_size-IsBody body h = ground arith

module _ (handle : Handler) where
  -- Requests without a stream: each is handled, and the first that is an error ends it.
  serve : Broker → List Bytes → Bytes → Outcome (Bytes × Broker)
  serve b [] output = done (output, b)
  serve b (body ∷ bodies) output =
      bind (handle b body) (continue_with (λ b' output'. serve b' bodies output') output)

  -- What a round does with a request that has arrived whole.
  loop_step :
      (fuel : ℕ) (b : Broker) (body rest output : Bytes)
      → IsBody body
      → b.closed ≡ false
      → handle_conn_loop handle (suc fuel) b (frame body ++ rest) output
        ≡ bind
            (handle b body)
            (continue_with (λ b' output'. handle_conn_loop handle fuel b' rest output') output)
  unfolding handle_conn_loop
  loop_step fuel b body rest output h open_ =
      let enough : length body ≤ length (body ++ rest) = omega (arith, length-append body rest) in
      simp open_ (
        rw (
          le→ltb (length (frame body ++ rest)) 4 (length-frame body rest),
          int32-size body rest h,
          invalid_size-IsBody body h,
          drop-frame body rest,
          le→ltb (length (body ++ rest)) (length body) enough,
          take-append body rest,
          drop-append body rest,
        ))

  module _
      (keeps : (b : Broker) (body : Bytes)
        → length body ≤ max_request
        → Served b (handle b body)) where
    loop-serve :
        (bodies : List Bytes) (tail : Bytes) (fuel : ℕ) (b : Broker) (output : Bytes)
        → All IsBody bodies
        → length tail < 4
        → b.closed ≡ false
        → length bodies < fuel
        → handle_conn_loop handle fuel b (concat_map frame bodies ++ tail) output
          ≡ serve b bodies output
    unfolding serve
    loop-serve bodies tail zero b output h ht open_ hf = absurd (omega arith)
    loop-serve [] tail (suc fuel) b output h ht open_ hf =
        unfold handle_conn_loop in rw (open_, lt→ltb (length tail) 4 ht)
    loop-serve (body ∷ bodies) tail (suc fuel) b output (hb, h) ht open_ hf =
        rw (append_assoc, loop_step fuel b body (concat_map frame bodies ++ tail) output hb open_)
          (bind-agree b (handle b body) _ _ output (keeps b body hb.1)
            (λ b' output' e. loop-serve bodies tail fuel b' output' h ht (e ∙ open_) (omega arith)))

-- The requests without a stream: each is handled by the broker that the one before leaves, and the
-- first that is an error ends it. What is kept is the answers.
abbrev after_answer :
    (Broker → Outcome (List Bytes × Broker)) → Option Bytes × Broker → Outcome (List Bytes × Broker)
after_answer next (none, b) = done ([], b)
after_answer next (some answer, b) = bind (next b) (λ (answers_, b'). done (answer ∷ answers_, b'))

-- A size in four bytes, the highest first, and that many bytes.
abbrev pub sized : Bytes → Bytes
sized body = be32 (length body % 2 ^ 32) ++ body

abbrev pub sent_back : Bytes → List Bytes × Broker → Outcome (Bytes × Broker)
sent_back output (answers_, b) = done (output ++ concat_map sized answers_, b)

module _ (handle : Handler) where
  unfoldable pub answers : Broker → List Bytes → Outcome (List Bytes × Broker)
  answers b [] = done ([], b)
  answers b (body ∷ bodies) = bind (handle b body) (after_answer (λ b'. answers b' bodies))

  sent_back-more :
      (o : Outcome (List Bytes × Broker)) (answer output : Bytes)
      → bind o (sent_back (output ++ sized answer))
        ≡ bind (bind o (λ (answers_, b'). done (answer ∷ answers_, b'))) (sent_back output)
  sent_back-more (done (answers_, b)) answer output =
      λ i. done (append_assoc output (sized answer) (concat_map sized answers_) i, b)
  sent_back-more panic answer output = refl
  sent_back-more stuck answer output = refl

  answers-next :
      (o : Outcome (Option Bytes × Broker)) (bodies : List Bytes) (output : Bytes)
      → ((b : Broker) (out : Bytes)
          → serve handle b bodies out ≡ bind (answers b bodies) (sent_back out))
      → bind o (continue_with (λ b' out. serve handle b' bodies out) output)
        ≡ bind (bind o (after_answer (λ b'. answers b' bodies))) (sent_back output)
  unfolding continue_with frame
  answers-next (done (none, b)) bodies output h = λ i. done (sym (append-nil output) i, b)
  answers-next (done (some answer, b)) bodies output h =
      h b (output ++ sized answer) ∙ sent_back-more (answers b bodies) answer output
  answers-next panic bodies output h = refl
  answers-next stuck bodies output h = refl

  serve-answers :
      (bodies : List Bytes) (b : Broker) (output : Bytes)
      → serve handle b bodies output ≡ bind (answers b bodies) (sent_back output)
  unfolding serve answers
  serve-answers [] b output = λ i. done (sym (append-nil output) i, b)
  serve-answers (body ∷ bodies) b output =
      answers-next (handle b body) bodies output (λ b' out. serve-answers bodies b' out)

length-frames : (bodies : List Bytes) → length bodies ≤ length (concat_map frame bodies)
length-frames [] = omega arith
length-frames (body ∷ bodies) = omega (
  arith,
  length-append (frame body) (concat_map frame bodies),
  length-frame body [],
  length-append (frame body) [],
  length-frames bodies,
)

-- A connection that carries whole requests, each with its size before it and of 1 byte to 32 MB,
-- and then fewer than four bytes: it does what handling the requests one by one does, which ends at
-- the first that is an error, and it sends the answers back in order, each with its size before it.
pub handle_conn-answers :
    (order : List Bytes → List Bytes) (bodies : List Bytes) (tail : Bytes) (b : Broker)
    → All IsBody bodies
    → length tail < 4
    → b.closed ≡ false
    → handle_conn (handle_request order) b (concat_map sized bodies ++ tail)
      ≡ bind (answers (handle_request order) b bodies) (sent_back [])
unfolding handle_conn frame
handle_conn-answers order bodies tail b h ht open_ =
    loop-serve (handle_request order)
      (λ b' body k. handle_request-Served order b' body (omega arith)) bodies tail
      (suc (length (concat_map frame bodies ++ tail))) b [] h ht open_
      (omega (arith, length-append (concat_map frame bodies) tail, length-frames bodies))
    ∙ serve-answers (handle_request order) bodies b []
