-- ===== src/Guard/Watch.antt =====
-- What one run of guard.py's `handler` does to the machines of an account that behaves as AWS
-- documents.
use millionws.Base.{
  ℕ, ◌≡◌, refl, sym, ap, ◌∙◌, true, ◌&&◌, Option, List, [], ◌∷◌, map, length, filter, All,
  if◌then◌else◌,
}
use millionws.Base.Int.{ℤ}
use millionws.Base.Text.{member, Text}
use millionws.Base.Result.{ok}
use millionws.Guard.{
  Config, Page, Ec2, Report, Outcome, expired, timedelta_minutes, extend_pages, failed, act_on,
  handler, time_of,
}
use millionws.Guard.Fleet.{Machine, shut, shut_named, id_of, IsFleet}
use millionws.Guard.Overdue.{
  DistinctIds, is_tagged, is_live, is_overdue, filters, extend_pages-eq, doomed-expired,
  length-listed, shut_named-doomed, member-doomed,
}

map-shut_named-nil : (ms : List Machine) → map (shut_named []) ms ≡ ms
unfolding shut_named member
map-shut_named-nil [] = refl
map-shut_named-nil (m ∷ ms) = rw (map-shut_named-nil ms) refl

module _ (ec2 : Ec2) (view : ec2.State → List Machine) (fleet : IsFleet ec2 view) where
  handler-listed :
      (config : Config) (clock : ℕ) (now : Option ℕ) (s : ec2.State) (pages : List Page)
      → ec2.paginate (filters config.tag_value) s ≡ ok pages
      → handler ec2 config clock now s
        ≡ failed ec2 s
            (expired (extend_pages [] pages) (time_of clock now) config.max_age_minutes)
            λ ids. act_on ec2 (length (extend_pages [] pages)) config.max_age_minutes ids s
  unfolding handler
  handler-listed config clock now s pages sent = rw (sent, handler) refl

  -- What a run leaves: the machines, and the report that it returns.
  abbrev pub Lands : Outcome ec2 → List Machine → Report → Type 0
  Lands o ms report = (view o.account ≡ ms) × (o.result ≡ ok report)

  act_on-Lands :
      (checked : ℕ) (minutes : ℤ) (ids : List Text) (s : ec2.State)
      → All (λ a. member a (map id_of (view s)) ≡ true) ids
      → Lands
          (act_on ec2 checked minutes ids s)
          (map (shut_named ids) (view s))
          (record { checked = checked; terminated = ids })
  unfolding act_on
  act_on-Lands checked minutes [] s h = (sym (map-shut_named-nil (view s)), refl)
  act_on-Lands checked minutes (i ∷ ids) s h =
      let (s', sent, seen) = fleet.shuts (i ∷ ids) s h in rw sent (seen, refl)

  -- On an account whose machines have distinct ids, where EC2 lists and terminates as `IsFleet`
  -- says and the age limit fits a timedelta, a run shuts down exactly the machines that carry the
  -- tag, are in one of the four states of the filter and were launched more than the limit before
  -- the time of the run, and leaves every other machine as it is. It returns, with the number of
  -- tagged machines in those states and with the ids of the machines that it shut down.
  pub handler_shuts_overdue :
      (config : Config) (clock : ℕ) (now : Option ℕ) (s : ec2.State) {limit : ℤ}
      → DistinctIds (view s)
      → timedelta_minutes config.max_age_minutes ≡ ok limit
      → let late = is_overdue config.tag_value limit (time_of clock now) in
        Lands
          (handler ec2 config clock now s)
          (map (λ m. if late m then shut m else m) (view s))
          (record {
            checked = length (filter (λ m. is_tagged config.tag_value m && is_live m) (view s));
            terminated = map id_of (filter late (view s));
          })
  handler_shuts_overdue config clock now s {limit} d e =
      let at = time_of clock now in
      let (pages, sent, seen) = fleet.lists (filters config.tag_value) s in
      let late = is_overdue config.tag_value limit at in
      let ids = map id_of (filter late (view s)) in
      let listed = extend_pages-eq [] pages ∙ seen in
      let found =
        ap (λ is. expired is at config.max_age_minutes) listed
        ∙ doomed-expired config.tag_value limit at config.max_age_minutes (view s) e in
      let counted = ap length listed ∙ length-listed config.tag_value (view s) in
      let (shown, told) =
        act_on-Lands (length (extend_pages [] pages)) config.max_age_minutes ids s
          (member-doomed config.tag_value limit at (view s) (view s) (λ a h. h)) in
      rw (handler-listed config clock now s pages sent, found)
        (
          shown ∙ shut_named-doomed config.tag_value limit at (view s) d,
          told ∙ ap (λ n. ok (record { checked = n; terminated = ids })) counted,
        )
