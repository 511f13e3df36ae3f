-- ===== src/Lib.antt =====
-- The ordering backend: a service that turns a diner's spoken or typed turns into a cart and
-- sends the confirmed cart to the point of sale. This library models what limits the calls of
-- outside services, what writes the cart, the turns of the ordering agent, and the voice sessions that
-- a socket starts, and proves what makes each correct.
--
-- How the parts interact. A voice session of a socket sends audio to a speech service and puts the final
-- transcripts on the bus. Each is a turn of the ordering agent. A turn of the ordering agent ends in a proposal, a batch of operations
-- (src/contracts), whose required options are checked first, and in a reply with the items mentioned.
-- The cart module is the only writer of cart state: the controller applies the operations one by one
-- with the applier, which reads the menu and prices the cart, asks the point of sale for a quote,
-- stores the cart together with the request's mark, and emits events, which reach the sockets of the
-- cart. Calls of outside services first pass a limiter, which is made of token buckets (a rate) and a
-- semaphore (a number of calls at once).
--
-- The files and the code:
--   Base, and the files of Base/: helpers the components share: tests into Bool, lists and integers over
--     the native numbers, the trimming of texts, association lists for `Map`, and `Attempt` for an awaited call
--     that returns or throws.
--   RateLimit: src/ratelimit/errors.ts and two constants of src/config/constants.ts.
--   RateLimit/Semaphore: src/ratelimit/semaphore.ts. `acquire`, `release` (the closure that
--     `makeRelease` returns, with one flag for each closure) and `fail` (a deadline or an abort, with
--     `remove` and `dispose`) are steps on the state; `run` is a history of them.
--   RateLimit/TokenBucket: src/ratelimit/token-bucket.ts. `tryTake`, `take`, `forceTake`, `refund`,
--     `penalize`, the one timer (`fire`) and the waiters' timers (`fail`) are steps at a reading of the
--     clock; `reschedule` is the refill, the loop that pays waiters out, and the next timer.
--   RateLimit/Limiter: src/ratelimit/rate-limiter.ts, as the operations on the buckets and the semaphore
--     that a call makes, for any way in which its stages end. RateLimit/Limiter/Buckets has the two buckets,
--     and `penalize`.
--   RateLimit/Arrival: src/ratelimit/arrival.ts.
--   RateLimit/Registry, RateLimit/RetryAfter, RateLimit/Estimate: registry.ts, retry-after.ts and
--     estimate-tokens.ts of src/ratelimit.
--   Llm/Client: src/llm/openai-compatible-provider.ts, a call of the model through the limiter.
--   Stt: src/stt/assemblyai-stt-provider.ts, a streaming session with the reservation that it holds.
--   Menu, Contracts: what the cart and the agent read of src/menu, and src/contracts;
--     src/shared/display-name.ts.
--   Menu/Fuzzy: src/menu/fuzzy-matcher.ts, on the UTF-16 code units of a text.
--   Menu/Chunk, Menu/Matcher: src/menu/candidate-matcher.ts and modifier-matcher.ts. The store and the
--     embeddings are arguments.
--   Menu/Search: `searchMenu` of src/menu/menu-service.ts.
--   Lock: src/shared/async-lock.ts, and with it src/ordering/cart-turn-queue.ts. A call is its number and
--     two flags, and what the promises do is four kinds of steps.
--   Cart: src/cart/cart-types.ts.
--   Cart/Applier: src/cart/cart-operation-applier.ts and cart-validator.ts.
--   Cart/Quote: src/cart/apply-quote.ts, cart-to-quote-request.ts, cart-to-insert-request.ts.
--   Cart/Store: the in-memory classes of src/cart/cart-repository.ts, with the expiry of the ledger, and src/redis/cart-cache.ts.
--   Cart/Controller: src/cart/cart-controller.ts. A method runs under the cart's lock and is one step
--     from a store to a store with the events that it emits, in order. Cart/Controller/History has the
--     calls of its methods one after the other, and the expiry of entries of the ledger.
--   Ordering/Usage, Ordering/CartView, Ordering/Reply: src/llm/usage.ts, and load-cart.node.ts and
--     parse-agent-reply.ts of src/ordering.
--   Ordering/Tools, Ordering/Batch: src/ordering/tools/run-tools.ts. One tool call, and the loop of
--     `runTools` over the calls of one answer of the model.
--   Ordering/State, Ordering/Graph: src/ordering/graph/state.ts and build-graph.ts with the nodes of
--     src/ordering/nodes. `visit` is a node and the edge that leaves it, `run_from` the run of the graph
--     library, with its limit on the number of nodes as fuel.
--   Ordering/Service: src/ordering/order-understanding-service.ts and order-graph.ts.
--   Ordering/Required: src/ordering/tools/required-modifiers.ts.
--   Ordering/Mentioned: src/ordering/mentioned-items.ts.
--   Voice/Session: src/voice/voice-session.ts, and what each callback and method of
--     src/voice/voice-message-handler.ts does to one session.
--   Voice/Handler: the handler and src/voice/voice-session-manager.ts. Sessions stay in a list after the
--     registry has dropped them, since callbacks and timers still have them; `step` is one event.
--   Tts/Segments: src/tts/segment-text.ts, on the UTF-16 code units of a text.
--   Tts/Service: src/tts/tts-service.ts. A promise of the provider that is settled is an event.
--   Realtime/Registry: src/realtime/client-registry.ts.
-- Below each file of a component stand its proofs, in files named for what they prove, and Tests, with
-- runs at concrete inputs.
--
-- How the code is read:
--   - The state of an object is a record that is passed on. A promise is settled at most once, so what
--     a step settles is a list of outcomes, each with the identity of its call.
--   - One reading of the clock serves a whole synchronous method. Instants are whole milliseconds, and a
--     bucket's tokens are counted in the unit that makes its refill per millisecond a whole number (for
--     a quota by the minute, sixty-thousandths of a token). The source computes in floating point; the
--     model is exact. Subtraction on the numbers stops at 0, where the source takes `Math.max(0, ..)`.
--   - Identifiers and instants as text are texts. Cents are integers of either sign, since an option's
--     price may be a discount. An amount from the point of sale is a whole number of millionths.
--   - The menu, the point of sale, fresh line ids and the time are arguments. The menu is read anew at
--     each call in the source; in the model it does not change within one batch.
--   - `Faults` says which calls of the store throw. A call that throws has written nothing, as with the
--     one script that the Redis implementation runs.
--   - A loop over a list is recursion on the list. The run of the graph has the library's limit on the
--     number of nodes, an argument, as fuel, and 21 are proved enough; the chain of causes of an error is looked at five levels
--     deep, as in the source.
--   - The model, the prompts, the two library schemas and `JSON.parse` are arguments. They may answer
--     differently at each step of a turn and, for the tools, at each call of a batch.
--   - The loop that cuts a long sentence has the length of the sentence as fuel.
--   - A callback, a method or a timer of a voice session is one event, up to its next `await`. Events
--     come in any order; those that the runtime could not deliver change nothing.
--   - The lock of a cart (src/shared/async-lock.ts) makes each method one step. Log lines and the
--     expiry of the indexes are not modelled.
--   - A score is a fraction of two natural numbers, where the source computes in floating point. A sort
--     is stable. `toLowerCase` is that of the letters from ASCII to Cyrillic. No key of the menu is `__proto__`.
--
-- Not modelled: the deadline that the stages of a limiter share, the Redis implementation and the stores of
-- the menu; and, because they are calls of outside services or libraries or glue around them, the clients of
-- the embeddings, of the point of sale and of the database, the speech provider, the prompts, the routes, the
-- websockets, authentication and configuration.
pub mod Base
pub mod Cart
pub mod Contracts
pub mod Llm
pub mod Lock
pub mod Menu
pub mod Ordering
pub mod RateLimit
pub mod Realtime
pub mod Stt
pub mod Tts
pub mod Voice
