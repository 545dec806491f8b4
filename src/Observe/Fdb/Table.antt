-- ===== src/Observe/Fdb/Table.antt =====
-- The tables that the forwarding table of a bridge gives.
use mathlib.Core.Path.{subst}
use unifi_stubd.Prelude.{false-true, and_left, not-false}
use unifi_stubd.Prelude.{
  ◌≡◌, sym, ap, ◌∙◌, true, false, not, ◌&&◌, ◌||◌, List, [], ◌∷◌, ◌++◌, Option, some, by_branch,
  if◌then◌else◌,
}
use unifi_stubd.Prelude.Text.{Bytes, same, same_iff, trim_space}
use unifi_stubd.Prelude.Maps.{member_there, member_here, lookup, put, member}
use unifi_stubd.Device.{MacTableEntry}
use unifi_stubd.Device.Mac.{parse_mac}
use unifi_stubd.Observe.Macs.{DeviceMacs, entries_of}
use unifi_stubd.Observe.Fdb.{
  FdbEntry, is_unicast, learned_fdb_entry, learned_entry, seen_key, grouped, mac_entries_by_device,
}

-- No entry has the text.
abbrev pub Lacks : Bytes → List MacTableEntry → Type 0
Lacks mac [] = Unit
Lacks mac (e ∷ es) = (e.mac ≡ mac → ⊥) × Lacks mac es

-- Every address is that of a single device, and none stands twice.
abbrev pub IsTable : List MacTableEntry → Type 0
IsTable [] = Unit
IsTable (e ∷ es) = (is_unicast (parse_mac e.mac) ≡ true) × Lacks e.mac es × IsTable es

abbrev pub AllTables : DeviceMacs → Type 0
AllTables [] = Unit
AllTables ((name, es) ∷ members) = IsTable es × AllTables members

-- The addresses of a member are marked as seen.
abbrev Marked : List Bytes → Bytes → List MacTableEntry → Type 0
Marked seen name [] = Unit
Marked seen name (e ∷ es) = (member (seen_key name e.mac) seen ≡ true) × Marked seen name es

abbrev AllMarked : List Bytes → DeviceMacs → Type 0
AllMarked seen [] = Unit
AllMarked seen ((name, es) ∷ members) = (IsTable es × Marked seen name es) × AllMarked seen members

Marked-more :
    (k : Bytes) (seen : List Bytes) (name : Bytes) (es : List MacTableEntry)
    → Marked seen name es
    → Marked (k ∷ seen) name es
Marked-more k seen name [] h = tt
Marked-more k seen name (e ∷ es) (a, h) =
    (member_there (seen_key name e.mac) k seen a, Marked-more k seen name es h)

AllMarked-more :
    (k : Bytes) (seen : List Bytes) (m : DeviceMacs) → AllMarked seen m → AllMarked (k ∷ seen) m
AllMarked-more k seen [] h = tt
AllMarked-more k seen ((name, es) ∷ m) ((a, b), h) =
    ((a, Marked-more k seen name es b), AllMarked-more k seen m h)

entries_of-lookup :
    (name : Bytes) (seen : List Bytes) (m : DeviceMacs)
    → AllMarked seen m
    → IsTable (entries_of (lookup name m)) × Marked seen name (entries_of (lookup name m))
entries_of-lookup name seen [] h = (tt, tt)
entries_of-lookup name seen ((k, es) ∷ m) ((a, b), h) =
    by_branch
      (λ (o : Option (List MacTableEntry)).
        IsTable (entries_of o) × Marked seen name (entries_of o))
      (same k name) (some es) (lookup name m)
      (λ hit. (a, subst (λ (x : Bytes). Marked seen x es) ((same_iff k name).0 hit) b))
      (λ miss. entries_of-lookup name seen m h)

AllMarked-put :
    (name : Bytes) (es : List MacTableEntry) (seen : List Bytes) (m : DeviceMacs)
    → IsTable es
    → Marked seen name es
    → AllMarked seen m
    → AllMarked seen (put name es m)
AllMarked-put name es seen [] a b h = ((a, b), tt)
AllMarked-put name es seen ((k, fs) ∷ m) a b (c, h) =
    by_branch (AllMarked seen) (same k name) ((k, es) ∷ m) ((k, fs) ∷ put name es m)
      (λ hit. ((a, subst (λ (x : Bytes). Marked seen x es) (sym ((same_iff k name).0 hit)) b), h))
      (λ miss. (c, AllMarked-put name es seen m a b h))

-- An address that is not marked is new to the table.
Lacks-of_unmarked :
    (name mac : Bytes) (seen : List Bytes) (es : List MacTableEntry)
    → member (seen_key name mac) seen ≡ false
    → Marked seen name es
    → Lacks mac es
Lacks-of_unmarked name mac seen [] new h = tt
Lacks-of_unmarked name mac seen (e ∷ es) new (a, h) = (
  λ same_mac.
      false-true (sym new ∙ sym (ap (λ (x : Bytes). member (seen_key name x) seen) same_mac) ∙ a),
  Lacks-of_unmarked name mac seen es new h,
)

Lacks-append :
    (mac : Bytes) (es : List MacTableEntry) (e : MacTableEntry)
    → Lacks mac es
    → (e.mac ≡ mac → ⊥)
    → Lacks mac (es ++ e ∷ [])
Lacks-append mac [] e h new = (new, tt)
Lacks-append mac (f ∷ es) e (a, h) new = (a, Lacks-append mac es e h new)

IsTable-append :
    (es : List MacTableEntry) (e : MacTableEntry)
    → IsTable es
    → is_unicast (parse_mac e.mac) ≡ true
    → Lacks e.mac es
    → IsTable (es ++ e ∷ [])
IsTable-append [] e h unicast new = (unicast, tt, tt)
IsTable-append (f ∷ es) e (a, b, h) unicast (c, new) =
    (a, Lacks-append f.mac es e b (λ same_mac. c (sym same_mac)), IsTable-append es e h unicast new)

Marked-append :
    (seen : List Bytes) (name : Bytes) (es : List MacTableEntry) (e : MacTableEntry)
    → Marked seen name es
    → member (seen_key name e.mac) seen ≡ true
    → Marked seen name (es ++ e ∷ [])
Marked-append seen name [] e h a = (a, tt)
Marked-append seen name (f ∷ es) e (b, h) a = (b, Marked-append seen name es e h a)

learned-is_unicast :
    (e : FdbEntry) → learned_fdb_entry e ≡ true → is_unicast (parse_mac e.mac) ≡ true
unfolding learned_fdb_entry
learned-is_unicast e h =
    let unicast = is_unicast (parse_mac e.mac) in
    let foreign = not (e.local || e.permanent || e.self) in
    and_left unicast foreign
      (and_left (unicast && foreign) (e.dynamic || e.static || (not e.local && not e.permanent)) h)

abbrev Good : DeviceMacs × List Bytes → Type 0
Good st = AllMarked st.1 st.0

grouped-Good : (es : List FdbEntry) (st : DeviceMacs × List Bytes) → Good st → Good (grouped es st)
grouped-Good [] st good = good
grouped-Good (e ∷ es) (out, seen) good =
    let name = trim_space e.device in
    let key = seen_key name e.mac in
    let old = entries_of (lookup name out) in
    let added : DeviceMacs × List Bytes =
      (put name (old ++ learned_entry e ∷ []) out, key ∷ seen) in
    grouped-Good es
      (if not (learned_fdb_entry e)
        then (out, seen)
        else if member key seen
        then (out, seen)
        else added)
      (by_branch Good (not (learned_fdb_entry e)) (out, seen)
        (if member key seen then (out, seen) else added) (λ skip. good)
        (λ kept.
          by_branch Good (member key seen) (out, seen) added (λ twice. good)
            (λ new.
              let (table, marked) = entries_of-lookup name seen out good in
              AllMarked-put name (old ++ learned_entry e ∷ []) (key ∷ seen) out
                (IsTable-append old (learned_entry e) table
                  (learned-is_unicast e (not-false (learned_fdb_entry e) kept))
                  (Lacks-of_unmarked name e.mac seen old new marked))
                (Marked-append (key ∷ seen) name old (learned_entry e)
                  (Marked-more key seen name old marked) (member_here key seen))
                (AllMarked-more key seen out good))))

AllTables-of_marked : (seen : List Bytes) (m : DeviceMacs) → AllMarked seen m → AllTables m
AllTables-of_marked seen [] h = tt
AllTables-of_marked seen ((name, es) ∷ m) ((a, b), h) = (a, AllTables-of_marked seen m h)

-- Whatever the rows of the forwarding table are, the table of each member has only addresses of single
-- devices, and none of them twice.
pub mac_entries_by_device-AllTables : (es : List FdbEntry) → AllTables (mac_entries_by_device es)
unfolding mac_entries_by_device
mac_entries_by_device-AllTables es =
    AllTables-of_marked (grouped es ([], [])).1 (grouped es ([], [])).0
      (grouped-Good es ([], []) tt)
