-- ===== src/RateLimit.antt =====
-- rate-limit.go: the weighted throttle. The limiter itself is the library's; what is modelled is
-- the queue behind it, what the middleware decides from a request, and the drain.
pub mod Clients
pub mod Queue
pub mod Price
pub mod Drain
pub mod Middleware
