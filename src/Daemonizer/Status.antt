-- ===== src/Daemonizer/Status.antt =====
-- Which process goes on as a daemon, with what, and the exit status of the others.
use virtual_time_synchroniza.Prelude.{
  ℕ, ◌≤◌, ◌≡◌, ◌≢◌, inl, inr, true, false, Bool-cases, List, [], ◌∷◌, done, crash, exits, ap, ◌==◌,
  arith, All, codes,
}
use virtual_time_synchroniza.Prelude.Int.{ℤ, pos, ltb_ℤ}
use virtual_time_synchroniza.Daemonizer.{Process, close, close_standard, daemonize}

close-All : (P : ℕ → Type 0) (fd : ℕ) (ds : List ℕ) → All P ds → All P (close fd ds)
unfolding close
close-All P fd [] h = tt
close-All P fd (d ∷ ds) (here, rest) = elim (Bool-cases (d == fd)) [
  | inl same ↦ rw same (close-All P fd ds rest)
  | inr other ↦ rw other (here, close-All P fd ds rest)
]

close-closed : (fd : ℕ) (ds : List ℕ) → All (λ d. d ≢ fd) (close fd ds)
unfolding close
close-closed fd [] = tt
close-closed fd (d ∷ ds) = elim (Bool-cases (d == fd)) [
  | inl same ↦ rw same (close-closed fd ds)
  | inr other ↦ rw other ((λ e. absurd (ground arith)), close-closed fd ds)
]

All-both :
    (P Q R : ℕ → Type 0) (ds : List ℕ)
    → ((d : ℕ) → P d → Q d → R d)
    → All P ds
    → All Q ds
    → All R ds
All-both P Q R [] f p q = tt
All-both P Q R (d ∷ ds) f (p, ps) (q, qs) = (f d p q, All-both P Q R ds f ps qs)

close_standard_lem : (ds : List ℕ) → All (λ d. 3 ≤ d) (close_standard ds)
unfolding close_standard
close_standard_lem ds =
    let rest = close 1 (close 0 ds) in
    let no_0 =
      close-All (λ d. d ≢ 0) 2 rest (close-All (λ d. d ≢ 0) 1 (close 0 ds) (close-closed 0 ds)) in
    let no_1 = close-All (λ d. d ≢ 1) 2 rest (close-closed 1 (close 0 ds)) in
    All-both (λ d. (d ≢ 0) × (d ≢ 1)) (λ d. d ≢ 2) (λ d. 3 ≤ d) (close 2 rest)
      (λ d (a, b) c. omega arith)
      (All-both (λ d. d ≢ 0) (λ d. d ≢ 1) (λ d. (d ≢ 0) × (d ≢ 1)) (close 2 rest) (λ d a b. (a, b))
        no_0 no_1)
      (close-closed 2 rest)

abbrev daemon : ℤ → Process → Process
daemon sid p = record {
  mode_mask = 0;
  session = sid;
  directory = codes "/";
  descriptors = close_standard p.descriptors;
}

daemonize_done :
    (pid sid chdir : ℤ) (p : Process)
    → pid ≡ pos 0
    → ltb_ℤ sid (pos 0) ≡ false
    → ltb_ℤ chdir (pos 0) ≡ false
    → daemonize pid sid chdir p ≡ done (daemon sid p)
unfolding daemonize
daemonize_done pid sid chdir p child sid_ok chdir_ok = ground arith

daemonize-only :
    (pid sid chdir : ℤ) (p q : Process)
    → daemonize pid sid chdir p ≡ done q
    → (pid ≡ pos 0)
      × (ltb_ℤ sid (pos 0) ≡ false)
      × (ltb_ℤ chdir (pos 0) ≡ false)
      × (q ≡ daemon sid p)
unfolding daemonize
daemonize-only pid sid chdir p q e = ground arith

daemonize-parent :
    (pid sid chdir : ℤ) (p : Process)
    → daemonize pid sid chdir p ≡ crash (exits 0)
    → ltb_ℤ (pos 0) pid ≡ true
unfolding daemonize
daemonize-parent pid sid chdir p e = ground arith

-- A process goes on exactly as the child of a `fork`, where `setsid` and `chdir` succeed; it then has its own
-- session, the root directory, and none of the three standard descriptors, so that the next files it opens
-- take their numbers. The only other process that exits without an error is the parent.
pub daemonize_lem :
    (pid sid chdir : ℤ) (p : Process)
    → ((q : Process)
        → daemonize pid sid chdir p ≡ done q
        → (pid ≡ pos 0)
          × (ltb_ℤ sid (pos 0) ≡ false)
          × (ltb_ℤ chdir (pos 0) ≡ false)
          × (q.session ≡ sid)
          × (q.directory ≡ codes "/")
          × All (λ d. 3 ≤ d) q.descriptors)
      × ((pid ≡ pos 0)
          → (ltb_ℤ sid (pos 0) ≡ false)
          → (ltb_ℤ chdir (pos 0) ≡ false)
          → (q : Process) × (daemonize pid sid chdir p ≡ done q))
      × (daemonize pid sid chdir p ≡ crash (exits 0) → ltb_ℤ (pos 0) pid ≡ true)
daemonize_lem pid sid chdir p = (
  λ q e.
      let (child, sid_ok, chdir_ok, same) = daemonize-only pid sid chdir p q e in
      (
        child,
        sid_ok,
        chdir_ok,
        ap Process.session same,
        ap Process.directory same,
        rw same (close_standard_lem p.descriptors),
      ),
  λ child sid_ok chdir_ok. (daemon sid p, daemonize_done pid sid chdir p child sid_ok chdir_ok),
  daemonize-parent pid sid chdir p,
)
