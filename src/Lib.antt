-- ===== src/Lib.antt =====
-- QuantForge engine: the trading core of cpp/ and what is proved of it.
--
-- The feed handler (cpp/market_data/upstox_ws_handler.cpp) keeps a connection to the exchange and
-- puts the ticks of its frames into a queue. A tick is validated
-- (cpp/market_data/tick_normalizer.cpp) and goes to a ring that the strategies read
-- (cpp/common/disruptor.hpp) and to the candles (cpp/market_data/candle_builder.hpp). A strategy's
-- order passes the pre-trade gate (cpp/risk), enters the order manager (cpp/oms), which takes a
-- slot of a fixed pool, names the order and hands it to the broker through the execution manager
-- (cpp/ems) and the client of the broker (cpp/transport/upstox_rest_client.cpp) or, in paper mode,
-- fills it at once. The broker's acknowledgements, fills and rejections come back to the order
-- manager; a fill passes the deduplicator, updates the order's record and state machine, and goes
-- through a ring buffer (cpp/common/spsc_queue.hpp) to the portfolio engine (cpp/portfolio), whose
-- snapshot the gate reads for the next order. Ticks, fills and snapshots are published to Kafka
-- (cpp/transport/kafka_publisher.cpp) and Redis (cpp/transport/redis_client.cpp).
-- The configuration that all parts share is read at the start (cpp/main/main.cpp).
--
-- Which file models what:
--   Types                  cpp/common/types.hpp: the structs, enumerations, defaults and member
--                          functions that the modelled parts use
--   Doubles                the type double and its operations, a parameter of every definition;
--                          Doubles/Fixed is one instance, for evaluation
--   Arena                  cpp/common/arena_allocator.hpp: a round of allocate, reset
--   Spsc                   cpp/common/spsc_queue.hpp: push, pop, try_pop, empty, size
--   MarketData/Disruptor   cpp/common/disruptor.hpp: claim_next, publish, push, try_consume
--   MarketData/Candles     cpp/market_data/candle_builder.hpp: on_tick, flush_all
--   MarketData/Normalizer  cpp/market_data/tick_normalizer.cpp: validate, the round of run
--   MarketData/Feed        cpp/market_data/upstox_ws_handler.cpp: start, subscribe, unsubscribe, stop and
--                          the completion handlers; Feed/Frames: decode_protobuf_frame
--   Oms/OrderState         cpp/oms/order_state.hpp: is_legal, transition, is_terminal
--   Oms/Pool               cpp/oms/order_pool.hpp: acquire, release, available
--   Oms/Dedup              cpp/oms/fill_deduplicator.hpp: try_mark, reset
--   Oms/Manager            cpp/oms/oms.cpp: on_order_ack, on_fill, generate_order_id
--   Oms/Requests           cpp/oms/oms.cpp: submit and its error callback, cancel, on_reject,
--                          cancel_all_open, open_order_count, reset_for_eod
--   Risk/TokenBucket       cpp/risk/token_bucket.hpp: try_consume, reset
--   Risk/MarketHours       cpp/risk/pre_trade_risk.hpp: is_open
--   Risk/Gate              cpp/risk/pre_trade_risk.cpp: configure, check, the switches, update_price
--   Portfolio/Engine       cpp/portfolio/portfolio_engine.cpp: process_fill, update_price,
--                          load_positions, emit_update and the readers
--   Portfolio/FillLoop     cpp/portfolio/portfolio_engine.cpp: fill_loop
--   Strategy/Manager       cpp/strategy/strategy_manager.cpp: the submit_order of a context, the
--                          dispatch of candles, fills, kill signals and parameters
--   Strategy/Threads       cpp/strategy/strategy_manager.cpp: start_all, run_strategy_thread,
--                          stop_all
--   Strategy/Momentum      cpp/strategy/plugins/momentum_strategy.cpp: on_start, on_tick,
--                          on_order_fill, on_kill_signal and what they call
--   Strategy/Plugin        the same, as a plugin of the manager
--   Strategy/Params        the same: update_params
--   Strategy/Signal        the same: evaluate_signal, try_entry, compute_qty, atr
--   Transport/Bytes        memcpy and the bytes of integers, as the serializers use them
--   Transport/Kafka        cpp/transport/kafka_publisher.cpp: the publishing calls and the serializers
--   Transport/Rest         cpp/transport/upstox_rest_client.cpp: the requests and do_request
--   Transport/Redis        cpp/transport/redis_client.cpp: the connection, the writes and the flush
--   Ems                    cpp/ems/ems.cpp: place_order, cancel_order, on_fill_event, and the callbacks
--                          that submit of cpp/oms/oms.cpp passes
--   Main/Config            cpp/main/main.cpp: load_config and load_token
--   Main/Wiring            cpp/main/main.cpp: the callbacks of run_engine to the gate, Kafka and Redis
--   Tests                  runs on concrete data
-- The other files prove properties of these. Prelude holds lists, association lists, integers and
-- texts.
--
-- How the code is represented. A class is a record of its members, an operation a function from
-- the state to the state and its answer. Every call of a component is one step, also `on_fill`,
-- which takes its lock twice, and a call of a ring; only the state machine's `transition` and the
-- arena's `allocate` have their load and their exchange apart. A pointer into the pool is the
-- index of its slot. An unordered map is an association list, so its order of iteration is that of
-- the list; a set is a list. A text is the list of its character codes, and a char array holds
-- what strncpy leaves in it up to the first zero. Clocks are arguments. Callbacks and calls of the
-- EMS are recorded in the state, newest first. Asynchronous operations are a list of what is under
-- way, and the handler of each is a function that gets the network's answer. Messages that
-- librdkafka does not take are not recorded. uint64_t and size_t counters wrap at 2 ^ 64; an int
-- is an integer without bound, so signed overflow, which C++ leaves undefined, is outside of the
-- model. The pool size (10000), the capacity of a queue (4096 or 65536) and the size of the ring
-- of ticks (65536) are arguments.
--
-- Bounds. Histories of the order manager cover the first 2 ^ 64 - 1 submissions, after which the
-- sequence number would repeat. Sizes in the arena go up to 2 ^ 62, so that no sum wraps, and
-- alignments are powers of two up to the 64 of the pool's own. The fill loop runs until it is
-- stopped; here it runs for a number of rounds, and as many as there are fills are enough. What is
-- used of IEEE 754 is written out in Doubles (IsOrdered) and Risk/Bursts (IsRefill).
--
-- Not modelled: the closing of the strategies' libraries, the order of start and stop in cpp/main,
-- logging and thread placement, and what only calls a library: the fetching of the feed's address,
-- the flush and the polling of Kafka. The libraries' answers (Boost.Asio and Beast, OpenSSL,
-- nlohmann's JSON parser, the classes generated by protobuf, std::hash, std::regex, hiredis, the
-- dynamic linker) are arguments. Other interleavings inside a call and weak memory effects are
-- left out.
pub mod Prelude
pub mod Doubles
pub mod Types
pub mod Arena
pub mod Spsc
pub mod MarketData
pub mod Transport
pub mod Oms
pub mod Ems
pub mod Risk
pub mod Portfolio
pub mod Strategy
pub mod Main
pub mod Tests
