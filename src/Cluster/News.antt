-- ===== src/Cluster/News.antt =====
-- What a run of reports tells, whatever their order and number: the runs up to each host's last report.
use mathlib.Core.Quot
use mathlib.Core.Quot.{Quot, Quot-set}
use virtual_time_synchroniza.Prelude.{
  ◌≡◌, refl, sym, ap, ◌∙◌, Bytes, List, Option, none, some, done, some_injective,
}
use virtual_time_synchroniza.Floats.{Floats, IsOrdered}
use virtual_time_synchroniza.Configuration.{Configuration}
use virtual_time_synchroniza.OrderedMap.{find}
use virtual_time_synchroniza.OrderedMap.Canonical.{eq_of_find}
use virtual_time_synchroniza.TdfTable.{TdfEntry, TdfTable}
use virtual_time_synchroniza.TdfTable.Update.{IsValid}
use virtual_time_synchroniza.Cluster.{Report, set_all, last_report, entry_after}
use virtual_time_synchroniza.Cluster.Reports.{set_all_lem}
use virtual_time_synchroniza.Cluster.Agreement.{SameLast}
use virtual_time_synchroniza.Cluster.Orders.{unheard}

module _ ⦃fl : Floats⦄ where
  open fl use {LongDouble, l}

  abbrev pub News : Type 0
  News = Quot SameLast

  abbrev pub told : List Report → News
  told = Quot.mk

  -- What the news say of a host.
  told_of : IsSet LongDouble → Bytes → News → Option LongDouble
  told_of is_set host = Quot.lift (hlevel is_set) (last_report host) λ rs qs same. same host

  entry_injective : (a b : Option LongDouble) → entry_after a none ≡ entry_after b none → a ≡ b
  unfolding entry_after
  entry_injective none none e = refl
  entry_injective none (some v) e = absurd cc
  entry_injective (some u) none e = absurd cc
  entry_injective (some u) (some v) e =
      ap (λ (x : TdfEntry). some x.base_tdf)
        (some_injective (record { base_tdf = u }) (record { base_tdf = v })
          (some_injective (some (record { base_tdf = u })) (some (record { base_tdf = v })) e))

  unheard-IsValid : (x : LongDouble) → IsValid (unheard x)
  unheard-IsValid x = record { sorted = tt; no_null = tt }

  module _ (laws : IsOrdered l) (is_set : IsSet LongDouble) where
    -- Two agents whose tables are enabled and empty take in a run of reports each, with any settings and
    -- any TDFs in force. Both succeed, and the tables hold the same afterwards if the two runs are the
    -- same news, that is equal up to the last report of each host, and only then. Of the type of the
    -- TDFs it is taken that it is a set.
    pub told-set_all :
        (cfg cfg' : Configuration) (x y : LongDouble) (rs qs : List Report)
        → (t : TdfTable) × (t' : TdfTable) × (set_all cfg (unheard x) rs ≡ done t)
          × (set_all cfg' (unheard y) qs ≡ done t')
          × (told rs ≡ told qs → t.tdf_map ≡ t'.tdf_map)
          × (t.tdf_map ≡ t'.tdf_map → told rs ≡ told qs)
    unfolding told_of last_report find
    told-set_all cfg cfg' x y rs qs =
        let (t, run, ok, _, found, _) = set_all_lem laws cfg (unheard x) rs (unheard-IsValid x) in
        let (t', run', ok', _, found', _) =
          set_all_lem laws cfg' (unheard y) qs (unheard-IsValid y) in
        (
          t,
          t',
          run,
          run',
          λ same. eq_of_find t.tdf_map t'.tdf_map ok.sorted ok'.sorted λ k.
              found k ∙ ap (λ o. entry_after o none) (ap (told_of is_set k) same) ∙ sym (found' k),
          λ maps. Quot.sound λ k.
              entry_injective (last_report k rs) (last_report k qs)
                (sym (found k) ∙ ap (find k) maps ∙ found' k),
        )
