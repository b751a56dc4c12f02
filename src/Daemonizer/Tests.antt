-- ===== src/Daemonizer/Tests.antt =====
-- A process that becomes a daemon.
use virtual_time_synchroniza.Prelude.{
  ◌≡◌, ◌≤◌, refl, false, true, [], ◌∷◌, done, crash, exits, codes, All,
}
use virtual_time_synchroniza.Prelude.Int.{pos, negsuc, ltb_ℤ}
use virtual_time_synchroniza.Daemonizer.{Process, close, close_standard, daemonize, main}
use virtual_time_synchroniza.Daemonizer.Status.{daemonize_lem}

abbrev shell : Process
shell = record {
  mode_mask = 18;
  session = pos 7;
  directory = codes "/root";
  descriptors = 0 ∷ 1 ∷ 2 ∷ 5 ∷ [];
}

child :
    daemonize (pos 0) (pos 9) (pos 0) shell
    ≡ done (record { mode_mask = 0; session = pos 9; directory = codes "/"; descriptors = 5 ∷ [] })
unfolding daemonize close_standard close
child = refl

no_session : main (pos 0) (negsuc 0) (pos 0) false shell ≡ 1
unfolding main daemonize
no_session = refl

daemonize_lem_example :
    ((q : Process)
      → daemonize (pos 0) (pos 9) (pos 0) shell ≡ done q
      → (pos 0 ≡ pos 0)
        × (ltb_ℤ (pos 9) (pos 0) ≡ false)
        × (ltb_ℤ (pos 0) (pos 0) ≡ false)
        × (q.session ≡ pos 9)
        × (q.directory ≡ codes "/")
        × All (λ d. 3 ≤ d) q.descriptors)
    × ((pos 0 ≡ pos 0)
        → (ltb_ℤ (pos 9) (pos 0) ≡ false)
        → (ltb_ℤ (pos 0) (pos 0) ≡ false)
        → (q : Process) × (daemonize (pos 0) (pos 9) (pos 0) shell ≡ done q))
    × (daemonize (pos 0) (pos 9) (pos 0) shell ≡ crash (exits 0) → ltb_ℤ (pos 0) (pos 0) ≡ true)
daemonize_lem_example = daemonize_lem (pos 0) (pos 9) (pos 0) shell
