-- ===== src/Singleton.antt =====
-- getInstance of BufferManager (src/IPC_BufferManager.cpp), of MutexManager (src/IPC_MutexManager.cpp),
-- of NetLinkListener (src/NetLinkListener.cpp) and of Logger (src/Logger.cpp). A static mutex makes the
-- calls of a process sequential. A function that initialises gives the object as it leaves it, also
-- where it throws, and whether it returns.
pub mod Once
mod Tests
use cppgenerics.Prelude.{Bool, true, Option, none, some, List, [], ◌∷◌, if◌then◌else◌}

-- BufferManager::getInstance: the object returned, or `none` for an exception, and what the holder
-- has then. MutexManager's and NetLinkListener's differ in the names alone.
unfoldable pub get_instance : {A : Type 0} → A → (A → Bool × A) → Option A → Option A × Option A
get_instance fresh init (some a) = (some a, some a)
get_instance fresh init none =
    let (done, a) = init fresh in ((if done then some a else none), some a)

-- Logger::getInstance, which has no function that initialises.
unfoldable pub logger_instance : {A : Type 0} → A → Option A → Option A × Option A
logger_instance fresh (some l) = (some l, some l)
logger_instance fresh none = (some fresh, some fresh)

-- The results of one call for each function of a list.
unfoldable pub instances : {A : Type 0} → A → List (A → Bool × A) → Option A → List (Option A)
unfolding get_instance
instances fresh [] holder = []
instances fresh (init ∷ inits) holder =
    let (result, holder') = get_instance fresh init holder in result ∷ instances fresh inits holder'
