-- ===== src/Program/Server/Leaving.antt =====
-- How the server program can end.
use open_x_database.Shared.{
  ℕ, ◌≡◌, ◌≢◌, ◌⊎◌, arith, ltb, refl, Bool, true, false, [], Option, none, some, replicate,
  Bool-cases, inl, inr,
}
use open_x_database.Shared.{
  Outcome, ok, Error, throws, undefined, diverges, if◌then◌else◌, ◌∷◌, ◌<◌, ◌≤◌, ◌∙◌, ap,
}
use open_x_database.Disk.{Disk}
use open_x_database.Options.{default_options}
use open_x_database.StorageEngine.State.{Platform, Engine}
use open_x_database.StorageEngine.Opening.{open_engine}
use open_x_database.Networking
use open_x_database.Networking.{new_acceptor}
use open_x_database.Networking.Server.{
  new_server, start_server, launched, init, opened_database, unopened, launch_all, with_threads,
  open_database,
}
use open_x_database.Networking.Joining.{
  launch_all-replicate, launch_all-behind, launch_all-fails, launched-new_server,
}
use open_x_database.Program.{Ended, returned, aborted, text}
use open_x_database.Program.Server.{ServerVariables, started, unstarted, serve, main_server}
use open_x_database.Program.Server.Parting.{left-ne-aborted, waited-ne-aborted, left-unjoinable}

-- A thread in the pool that the system cannot start.
abbrev pub IsLacking : Option ℕ → ℕ → Type 0
IsLacking none n = ⊥
IsLacking (some k) n = k < n

within_or_behind : (k n : ℕ) → (k < n) ⊎ (n ≤ k)
within_or_behind k n = elim (Bool-cases (ltb k n)) [
  | inl within ↦ inl (ground (arith, within))
  | inr behind ↦ inr (ground (arith, behind))
]

module _ (p : Platform) (run : Option (Outcome (Unit {0}))) (d : Disk) (n : ℕ) where
  abbrev launching : Option ℕ → Outcome Engine × Disk → Outcome Ended
  launching failing o = started run (
      launched failing (unstarted n d) (opened_database (Networking.start new_acceptor) unopened o))

  all_started :
      (failing : Option ℕ) (e : Engine) (d' : Disk)
      → launch_all failing (replicate n false) ≡ some (ok tt, replicate n true)
      → launching failing (ok e, d') ≢ ok aborted
  unfolding started opened_database with_threads new_server
  all_started failing e d' launches =
      rw (launched-new_server failing n _ _, launches) (waited-ne-aborted run n _ refl)

  none-IsLacking :
      (failing : Option ℕ) (e : Engine) (d' : Disk)
      → launching failing (ok e, d') ≡ ok aborted
      → IsLacking failing n
  none-IsLacking none e d' ends = absurd (all_started none e d' (launch_all-replicate n) ends)
  none-IsLacking (some k) e d' ends = elim (within_or_behind k n) [
    | inl l ↦ l
    | inr l ↦ absurd (all_started (some k) e d' (launch_all-behind k n l) ends)
  ]

  lacking :
      (failing : Option ℕ) (e : Engine) (d' : Disk)
      → IsLacking failing n
      → launching failing (ok e, d') ≡ ok aborted
  unfolding started opened_database with_threads new_server
  lacking none e d' l = absurd l
  lacking (some k) e d' l =
      let (ts, ts', launches, joins) = launch_all-fails k n l in
      rw (launched-new_server (some k) n _ _, launches) (left-unjoinable 1 _ ts' joins)

  not_opened :
      (failing : Option ℕ) (x : Error) (d' : Disk) → launching failing (throws x, d') ≢ ok aborted
  unfolding started launched opened_database new_server replicate
  not_opened failing x d' = left-ne-aborted 1 0 _ refl

  serve-Lacks :
      (failing : Option ℕ)
      → serve p failing run d n ≡ ok aborted
      → (e : Engine) × (d' : Disk) × (open_engine p default_options d ≡ (ok e, d'))
        × IsLacking failing n
  unfolding serve start_server init new_server open_database
  serve-Lacks failing ends = by_opening (open_engine p default_options d) refl ends
    where
      by_opening :
          (o : Outcome Engine × Disk)
          → open_engine p default_options d ≡ o
          → launching failing o ≡ ok aborted
          → (e : Engine) × (d' : Disk) × (open_engine p default_options d ≡ (ok e, d'))
            × IsLacking failing n
      by_opening (ok e, d') opens h = (e, d', opens, none-IsLacking failing e d' h)
      by_opening (throws x, d') opens h = absurd (not_opened failing x d' h)
      by_opening (undefined, d') opens h = cc
      by_opening (diverges, d') opens h = cc

  serve-aborted :
      (failing : Option ℕ) (e : Engine) (d' : Disk)
      → open_engine p default_options d ≡ (ok e, d')
      → IsLacking failing n
      → serve p failing run d n ≡ ok aborted
  unfolding serve start_server init new_server open_database
  serve-aborted failing e d' opens l = ap (launching failing) opens ∙ lacking failing e d' l

-- The server is started, its database is opened, and a thread of its pool is not.
pub record Lacks (p : Platform) (is_bound : Bool) (failing : Option ℕ) (d : Disk)
    (vars : Option ServerVariables) : Type 0 where
  pub variables : ServerVariables
  pub given : vars ≡ some variables
  pub no_help : variables.help ≡ false
  pub bound : is_bound ≡ true
  pub engine : Engine
  pub disk : Disk
  pub opens : open_engine p default_options d ≡ (ok engine, disk)
  pub thread : IsLacking failing variables.threads

module _ (p : Platform) (is_bound : Bool) (failing : Option ℕ) (run : Option (Outcome (Unit {0})))
    (d : Disk) (description : Prim.Native.String.String) where
  aborted-Lacks :
      (vars : Option ServerVariables)
      → main_server p is_bound failing run d description vars ≡ ok aborted
      → Lacks p is_bound failing d vars
  unfolding main_server
  aborted-Lacks none ends = cc
  aborted-Lacks (some vars) ends = by_flags vars.help is_bound refl refl ends
    where
      by_flags :
          (helps binds : Bool)
          → vars.help ≡ helps
          → is_bound ≡ binds
          → (if helps
              then ok (returned 1 (text description ∷ text "\n" ∷ []))
              else if binds
              then serve p failing run d vars.threads
              else ok (returned 1 []))
            ≡ ok aborted
          → Lacks p is_bound failing d (some vars)
      by_flags true binds helps bound h = cc
      by_flags false false helps bound h = cc
      by_flags false true helps bound h =
          let (e, d', opens, lacks) = serve-Lacks p run d vars.threads failing h in
          record {
            variables = vars;
            given = refl;
            no_help = helps;
            bound = bound;
            engine = e;
            disk = d';
            opens = opens;
            thread = lacks;
          }

  Lacks-aborted :
      (vars : Option ServerVariables)
      → Lacks p is_bound failing d vars
      → main_server p is_bound failing run d description vars ≡ ok aborted
  unfolding main_server
  Lacks-aborted vars l =
      rw (l.given, l.no_help, l.bound)
        (serve-aborted p run d l.variables.threads failing l.engine l.disk l.opens l.thread)

  -- Whatever the command line, the directory and running the service come to, the main thread of the server
  -- program is ended before `main` returns in just one case: a server is asked for and its port bound, the
  -- database was opened, and then a thread of the pool could not be started, so that the destructor joins
  -- one that is not joinable.
  pub main_server-aborted :
      (vars : Option ServerVariables)
      → (main_server p is_bound failing run d description vars ≡ ok aborted
          → Lacks p is_bound failing d vars)
        × (Lacks p is_bound failing d vars
            → main_server p is_bound failing run d description vars ≡ ok aborted)
  main_server-aborted vars = (aborted-Lacks vars, Lacks-aborted vars)
