-- ===== src/Record/Command/Cpu.antt =====
-- The CPU share of record.py's samples, over two calls of `sample`.
use millionws.Base.{◌≡◌, sym, ap, subst, ◌∙◌, ◌++◌, Option, some, arith, inl, inr}
use millionws.Base.Int.{ℤ, pos, ◌-ℤ◌, scale}
use millionws.Base.Text.{Text, codes}
use millionws.Base.Dict.{Dict, lookup}
use millionws.Base.Result.{Result-cases, ok_injective, raised-ne-ok, ok}
use millionws.Record.Number.{Float, divide}
use millionws.Record.Parse.{read, kv, scrape_server}
use millionws.Record.Sampler.{
  Host, Sample, Sampler, new_sampler, sample, cpu_pct_of, next_cpu, field,
}
use millionws.Record.Page.{idle_line}
use millionws.Record.Command.{cmd_idle}

module _ (f : Float) where
  -- A host's cgroup states the CPU time, in microseconds.
  abbrev pub States : Text → Host f → ℤ → Type 0
  States cg h usage =
      (cpu : Dict ℤ) × (kv (read (h.file (cg ++ codes "/cpu.stat"))) ≡ ok cpu)
      × (lookup (codes "usage_usec") cpu ≡ some usage)

  pub sample-cpu :
      (h : Host f) (self : Sampler f) (cpu : Dict ℤ) {s : Sample f} {next : Sampler f}
      → kv (read (h.file (self.cg ++ codes "/cpu.stat"))) ≡ ok cpu
      → sample f h self ≡ ok (s, next)
      → (cpu_pct_of f self.last_cpu (lookup (codes "usage_usec") cpu) h.monotonic ≡ ok s.cpu_pct)
        × (next ≡ record self {
          last_cpu = next_cpu f self.last_cpu (lookup (codes "usage_usec") cpu) h.monotonic;
        })
  unfolding sample
  sample-cpu h self cpu k e = ground arith

  pub sample-conns :
      (h : Host f) (self : Sampler f) {s : Sample f} {next : Sampler f}
      → sample f h self ≡ ok (s, next)
      → s.server_conns ≡ field f (codes "server_conns") (scrape_server f h.metrics_page)
  unfolding sample
  sample-conns h self e = ground arith

  -- The share of one core, in percent and rounded, between two readings of the CPU time.
  abbrev pub share : ℤ × f.Carrier → ℤ × f.Carrier → f.Carrier
  share (u, t) (v, now) =
      f.round_1 (
        f.quotient (f.of_int (scale 100 (v -ℤ u))) (f.mul (f.sub now t) (f.of_int (pos 1_000_000))))

  cpu_pct_of-share :
      (u v : ℤ) (t now : f.Carrier) {pct : Option f.Carrier}
      → cpu_pct_of f (some (u, t)) (some v) now ≡ ok pct
      → pct ≡ some (share (u, t) (v, now))
  unfolding cpu_pct_of divide ◌-ℤ◌ scale
  cpu_pct_of-share u v t now e = ground arith

  -- After a first sample whose cgroup states the CPU time, a second sample of it that states the CPU
  -- time has as `cpu_pct` the share between the two readings, at the times that the clock read.
  pub sample-share :
      (self : Sampler f) (first second : Host f) (u v : ℤ) {s r : Sample f}
      {primed next : Sampler f}
      → sample f first self ≡ ok (s, primed)
      → sample f second primed ≡ ok (r, next)
      → States self.cg first u
      → States self.cg second v
      → (r.cpu_pct ≡ some (share (u, first.monotonic) (v, second.monotonic))) × (next.cg ≡ self.cg)
  sample-share self first second u v {s} {r} {primed} {next} e d (cpu, k, l) (cpu', k', l') =
      let counting : Sampler f = record self { last_cpu = some (u, first.monotonic) } in
      let counted : primed ≡ counting = rw l at (sample-cpu first self cpu k e).1 in
      let (pct, kept) =
        sample-cpu second counting cpu' k'
          (subst (λ (q : Sampler f). sample f second q ≡ ok (r, next)) counted d) in
      (cpu_pct_of-share u v first.monotonic second.monotonic (rw l' at pct), ap (λ q. q.cg) kept)

  -- The idle sample that `cmd_idle` stores, where the cgroup states the CPU time at both samples, has
  -- as `cpu_pct` the share between the two readings: the first sample has set the counter.
  pub cmd_idle-share :
      (cgroup : Text) (first second : Host f) (sampler : Sampler f) (u v : ℤ) {s : Sample f}
      {line : Text}
      → new_sampler f cgroup ≡ ok sampler
      → cmd_idle f cgroup first second ≡ ok (s, line)
      → States sampler.cg first u
      → States sampler.cg second v
      → s.cpu_pct ≡ some (share (u, first.monotonic) (v, second.monotonic))
  unfolding cmd_idle
  cmd_idle-share cgroup first second sampler u v {s} {line} k e h h' =
      elim (Result-cases (sample f first sampler)) [
        | inr (x, failed) ↦ absurd (raised-ne-ok x (s, line) (rw (k, failed) at e))
        | inl ((t, primed), sampled) ↦ elim (Result-cases (sample f second primed)) [
          | inr (x, failed) ↦ absurd (raised-ne-ok x (s, line) (rw (k, sampled, failed) at e))
          | inl ((r, next), again) ↦
              let same : (r, idle_line f r) ≡ (s, line) =
                ok_injective _ _ (rw (k, sampled, again) at e) in
              ap (λ (q, _). q.cpu_pct) (sym same)
              ∙ (sample-share sampler first second u v sampled again h h').0
        ]
      ]
