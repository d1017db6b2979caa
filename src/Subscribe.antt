-- ===== src/Subscribe.antt =====
-- A subscription to a model's results: the queue between the pump and the consumer and the limiter
-- of consecutive failures (detail/subscribe_health.hpp), and the InferenceStream that the consumer
-- pulls from (src/inference.cpp). A lock makes each operation one step, so a history is the
-- list of the operations in the order in which they took the lock.
pub mod Queue
pub mod Limiter
pub mod Stream
mod Tests
