-- ===== src/Sync.antt =====
-- The synchronisation objects of the framework. A caller is the address of a tinyState; every call
-- runs under the application's mutex, so a history is a sequence of calls.
pub mod Drain
pub mod Callers
pub mod LimitSemaphore
pub mod Semaphore
pub mod Mutex

-- how an acquiring call ends: it returns, or throws `sException` to stay in its state until it is
-- ready, or throws `sException(0, EX_ERROR)`
pub data Outcome : Type 0 where
  acquired stays failed : Outcome
