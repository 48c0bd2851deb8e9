-- ===== src/Font/Sharing.antt =====
-- nacl/src/font/mod.rs: `FBMAN` and `_print`, called by any number of contexts, one access to shared
-- memory at a time.
pub mod Whole
pub mod Ending
use na_cl.Common.{ℕ, suc, ◌≡◌, Bool, true, false, Option, some, List, [], ◌∷◌, ◌++◌, if◌then◌else◌}
use na_cl.Common.Outcomes.{done}
use na_cl.HashMap.{HashMap}
use na_cl.Lock.{AtomicWaker, idle, spinning, holding, waking, new_waker, update, System}
use na_cl.Lock
use na_cl.Font.Console.{Screen, put}

module _ (aw : AtomicWaker) (hm : HashMap ℕ) (ft : List ℕ) where
  -- The value of `FBMAN`.
  abbrev pub Fbman : Type 0
  Fbman = Option (Screen hm ft)

  -- The mutex, and what is left of the text that each context prints.
  pub record Printers : Type 0 where
    pub fbman : System aw Fbman
    pub left : ℕ → List ℕ

  -- After `insert_fbman`, while nobody prints.
  abbrev pub inserted : Screen hm ft → Printers
  inserted fb = record { fbman = Lock.new aw Fbman (some fb); left = λ i. [] }

  -- The mutex after `_print` of context `i` has tried to lock it.
  abbrev pub locked_by : Printers → ℕ → System aw Fbman
  locked_by s i = Lock.try aw Fbman s.fbman i (holding new_waker) spinning

  -- One step of `_print` in context `i`: the call with a text, the loop of `lock_or_spin`, `put` of the
  -- next character, and the two halves of the guard's drop.
  pub data Step (s : Printers) (i : ℕ) : Printers → Type 0 where
    call :
        (text : List ℕ)
        → s.fbman.pc i ≡ idle
        → Step s i
            (record { fbman = Lock.goto aw Fbman s.fbman i spinning; left = update s.left i text })
    spin : s.fbman.pc i ≡ spinning → Step s i (record s { fbman = locked_by s i })
    write :
        (c : ℕ) (cs : List ℕ) (fb fb' : Screen hm ft)
        → s.fbman.pc i ≡ holding new_waker
        → s.left i ≡ c ∷ cs
        → s.fbman.inner ≡ some fb
        → put hm ft fb c ≡ done fb'
        → Step s i
            (record { fbman = record s.fbman { inner = some fb' }; left = update s.left i cs })
    unlock :
        s.fbman.pc i ≡ holding new_waker
        → s.left i ≡ []
        → Step s i (record s {
          fbman = Lock.goto aw Fbman (record s.fbman { locked = false }) i (waking new_waker);
        })
    wake :
        s.fbman.pc i ≡ waking new_waker
        → Step s i (record s { fbman = Lock.wake_step aw Fbman s.fbman i new_waker })

  -- The states that steps of the contexts lead to, in any order.
  pub data Reach (s : Printers) : Printers → Type 0 where
    here : Reach s s
    next : {t u : Printers} (i : ℕ) → Reach s t → Step t i u → Reach s u

  -- The text that a step adds to those whose prints have got the lock.
  abbrev pub obtained : {s : Printers} (i : ℕ) {t : Printers} → Step s i t → List ℕ
  obtained i (call text h) = []
  obtained {s} i (spin h) = if s.fbman.locked then [] else s.left i
  obtained i (write c cs fb fb' h l e p) = []
  obtained i (unlock h l) = []
  obtained i (wake h) = []

  -- The texts of the prints that have got the lock, in the order in which they have.
  abbrev pub texts : {s t : Printers} → Reach s t → List ℕ
  texts here = []
  texts (next i r st) = texts r ++ obtained i st

  -- Steps of context `i` alone, and how many.
  pub data Steps (i : ℕ) : Printers → ℕ → Printers → Type 0 where
    stop : {s : Printers} → Steps i s 0 s
    go_on : {s t u : Printers} {k : ℕ} → Step s i t → Steps i t k u → Steps i s (suc k) u
