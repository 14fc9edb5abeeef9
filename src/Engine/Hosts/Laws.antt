-- ===== src/Engine/Hosts/Laws.antt =====
-- What Engine::sync_hosts leaves in the hosts file.
use appytizer_app_server.Base.{
  ℕ, ◌≡◌, refl, ap, ap₂, subst, inl, inr, ◌∙◌, ◌⊎◌, Bool, true, false, not, List, [], ◌∷◌, ◌++◌,
  append_assoc, append-nil, arith, map, Option, none, some, Text, codes, find, starts_with, All,
  keep, keep-append, keep-keep, keep-eq-nil, Bool-cases, ◌&&◌, ◌||◌, ◌==◌, if◌then◌else◌,
}
use appytizer_app_server.Sites.Registry.{Site}
use appytizer_app_server.Engine.Hosts.{
  hosts_tag, lines_of, is_tagged, hosts_entry, valid_entries, write_lines, updated_hosts,
  HostsSystem, sync_hosts,
}

abbrev pub IsLine : Text → Type 0
IsLine = All (λ c. (c == 10) ≡ false)

lines_of-IsLine : (s : Text) → All IsLine (lines_of s)
unfolding lines_of
lines_of-IsLine [] = tt
lines_of-IsLine (c ∷ cs) = ground (arith, lines_of-IsLine cs)

lines_of-line : (l s : Text) → IsLine l → lines_of (l ++ (10 ∷ s)) ≡ l ∷ lines_of s
unfolding lines_of
lines_of-line [] s v = refl
lines_of-line (c ∷ l) s v = rw (v.0, lines_of-line l s v.1)

lines_of-write_lines : (ls : List Text) → All IsLine ls → lines_of (write_lines ls) ≡ ls
unfolding write_lines lines_of
lines_of-write_lines [] v = refl
lines_of-write_lines (l ∷ ls) v =
    lines_of-line l (write_lines ls) v.0 ∙ ap (◌∷◌ l) (lines_of-write_lines ls v.1)

is_found : Option ℕ → Bool
is_found none = false
is_found (some p) = true

starts_with_refl : (p : Text) → starts_with p p ≡ true
starts_with_refl [] = refl
starts_with_refl (x ∷ p) = ground (arith, starts_with_refl p)

is_found-find : (p s : Text) → is_found (find p (s ++ p)) ≡ true
unfolding is_found
is_found-find [] [] = refl
is_found-find (x ∷ p) [] = ground (arith, starts_with_refl p)
is_found-find p (c ∷ s) = elim (Bool-cases (starts_with p (c ∷ (s ++ p)))) [
  | inl e ↦ rw e refl
  | inr e ↦ rw e (ground (arith, is_found-find p s))
]

tagged-found : (s : Text) → is_found (find hosts_tag s) ≡ true → is_tagged s ≡ true
unfolding is_found
tagged-found s h = grind arith

hosts_entry-tagged : (site : Site) → is_tagged (hosts_entry site) ≡ true
hosts_entry-tagged site =
    let front : Text = codes "127.0.0.1\t" ++ (site.hostname ++ codes "\t") in
    let e : front ++ hosts_tag ≡ hosts_entry site =
      ap (◌++◌ (codes "127.0.0.1\t")) (append_assoc site.hostname (codes "\t") hosts_tag) in
    subst (λ t. is_tagged t ≡ true) e
      (tagged-found (front ++ hosts_tag) (is_found-find hosts_tag front))

-- The hostnames that go into the file have no newline in them.
abbrev pub AreLines : List Site → Type 0
AreLines sites = All (λ s. IsLine s.hostname) (keep (λ s. s.valid) sites)

IsLine-append : (s t : Text) → IsLine s → IsLine t → IsLine (s ++ t)
IsLine-append [] t v w = w
IsLine-append (c ∷ s) t v w = (v.0, IsLine-append s t v.1 w)

hosts_entry-IsLine : (site : Site) → IsLine site.hostname → IsLine (hosts_entry site)
hosts_entry-IsLine site v =
    IsLine-append (codes "127.0.0.1\t") (site.hostname ++ (codes "\t" ++ hosts_tag)) (ground arith)
      (IsLine-append site.hostname (codes "\t" ++ hosts_tag) v (ground arith))

entries-IsLine :
    (sites : List Site) → All (λ s. IsLine s.hostname) sites → All IsLine (map hosts_entry sites)
entries-IsLine [] v = tt
entries-IsLine (s ∷ sites) v = (hosts_entry-IsLine s v.0, entries-IsLine sites v.1)

entries-tagged : (sites : List Site) → All (λ e. not (is_tagged e) ≡ false) (map hosts_entry sites)
entries-tagged [] = tt
entries-tagged (s ∷ sites) = (ap not (hosts_entry-tagged s), entries-tagged sites)

All-keep : (p : Text → Bool) (ls : List Text) → All IsLine ls → All IsLine (keep p ls)
All-keep p [] v = tt
All-keep p (l ∷ ls) v = ground (arith, All-keep p ls v.1)

All-append : (xs ys : List Text) → All IsLine xs → All IsLine ys → All IsLine (xs ++ ys)
All-append [] ys v w = w
All-append (x ∷ xs) ys v w = (v.0, All-append xs ys v.1 w)

-- The lines that are not Appytizer's, in their order.
abbrev pub foreign_lines : Text → List Text
foreign_lines file = keep (λ entry. not (is_tagged entry)) (lines_of file)

-- After an update the file's lines are those that were not tagged, in their order, and then one
-- entry for each valid site.
pub lines_of-updated_hosts :
    (sites : List Site) (file : Text)
    → AreLines sites
    → lines_of (updated_hosts sites file) ≡ foreign_lines file ++ valid_entries sites
unfolding updated_hosts
lines_of-updated_hosts sites file v =
    lines_of-write_lines (foreign_lines file ++ valid_entries sites) (
      All-append (foreign_lines file) (valid_entries sites)
        (All-keep _ (lines_of file) (lines_of-IsLine file)) (entries-IsLine _ v))

-- Updates of other sites leave no trace.
pub updated_hosts-updated_hosts :
    (before after : List Site) (file : Text)
    → AreLines before
    → updated_hosts after (updated_hosts before file) ≡ updated_hosts after file
unfolding updated_hosts
updated_hosts-updated_hosts before after file v =
    ap (λ ls. write_lines (keep (λ e. not (is_tagged e)) ls ++ valid_entries after))
      (lines_of-updated_hosts before file v)
    ∙ ap (λ ls. write_lines (ls ++ valid_entries after))
        (keep-append (λ e. not (is_tagged e)) (foreign_lines file) (valid_entries before)
          ∙ ap₂ ◌++◌ (keep-keep (λ e. not (is_tagged e)) (lines_of file))
              (keep-eq-nil (λ e. not (is_tagged e)) (valid_entries before) (entries-tagged _))
          ∙ append-nil (foreign_lines file))

-- Where no write fails, only the last call of sync_hosts counts: after one for other sites, a call does
-- what it would have done alone. So with the same sites a second call changes nothing, and with none it
-- takes back all earlier ones.
pub sync_hosts-sync_hosts :
    (system : HostsSystem) (before after : List Site) (file : Option Text)
    → AreLines before
    → system.write_fails ≡ false
    → sync_hosts system after (sync_hosts system before file).file ≡ sync_hosts system after file
unfolding sync_hosts
sync_hosts-sync_hosts system before after none v writes = ground arith
sync_hosts-sync_hosts system before after (some text) v writes =
    ground (arith, writes, updated_hosts-updated_hosts before after text v)

-- A call that reports a failure has changed nothing and flushed nothing. One that reports success
-- flushes the cache unless the path was overridden; it leaves a file whose lines are the old lines that
-- were not tagged, in their order, and then one entry for each valid site, or, where a write fails, what
-- that write left of such a file.
pub sync_hosts_lem :
    (system : HostsSystem) (sites : List Site) (file : Option Text)
    → AreLines sites
    → let r = sync_hosts system sites file in
      ((r.ok ≡ false) × (r.file ≡ file) × (r.flushed ≡ false))
      ⊎ ((old : Text) × (new : Text) × (r.ok ≡ true)
          × (file ≡ some old)
          × (lines_of new ≡ foreign_lines old ++ valid_entries sites)
          × (r.file ≡ some (if system.write_fails then system.left new else new))
          × (r.flushed ≡ not system.override_set))
unfolding sync_hosts
sync_hosts_lem system sites none v = inl (ground arith, ground arith, ground arith)
sync_hosts_lem system sites (some old) v =
    elim (Bool-cases
      (system.can_write && (system.override_set || system.windows_directory_found))) [
        | inl works ↦ inr (
          old,
          updated_hosts sites old,
          ground arith,
          refl,
          lines_of-updated_hosts sites old v,
          ground arith,
          ground arith,
        )
        | inr fails ↦ inl (ground arith, ground arith, ground arith)
      ]
