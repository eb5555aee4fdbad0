-- ===== src/Router/Routes/Load.antt =====
-- `sr_load_rt` of router/src/router/sr_rt.c. `scan` is `sscanf` with four `%s`: the words of a
-- line that it converts, at most four; `inet_aton` gives no address where it returns 0.
use computer_networks.Prelude.{
  ℕ, ◌≡◌, refl, sym, ◌∙◌, ap, Bool, true, false, Option, none, some, List, [], ◌∷◌, ◌++◌, ◌&&◌, ◌<◌,
  if◌then◌else◌, length, ltb, lt→ltb, take, All,
}
use mathlib.Core.List.{append-nil, append_assoc}
use computer_networks.Prelude.Words.{Bytes}
use computer_networks.Router.State.{Name, Route}
use computer_networks.Router.Interfaces.{iface_namelen}
use computer_networks.Router.Routes.{sr_add_rt_entry}

-- The four buffers of 32 bytes, which keep their contents from line to line.
pub record Words : Type 0 where
  pub dest : Bytes
  pub gw : Bytes
  pub mask : Bytes
  pub iface : Bytes

-- What the words that were converted leave in the buffers.
unfoldable pub written : List Bytes → Words → Words
written [] b = b
written (d ∷ []) b = record b { dest = d }
written (d ∷ g ∷ []) b = record b { dest = d; gw = g }
written (d ∷ g ∷ m ∷ []) b = record b { dest = d; gw = g; mask = m }
written (d ∷ g ∷ m ∷ i ∷ rest) b = record { dest = d; gw = g; mask = m; iface = i }

-- Each word has room for the 0 behind it.
unfoldable pub have_room : List Bytes → Bool
have_room [] = true
have_room (w ∷ ws) = ltb (length w) 32 && have_room ws

-- `none`: a longer word is written behind its buffer.
unfoldable pub scan_into : List Bytes → Words → Option Words
unfolding written have_room
scan_into words b = if have_room (take 4 words) then some (written words b) else none

-- Whether 0 was returned, and the table; `none` as before.
abbrev pub Loaded : Type 0
Loaded = Option (Bool × List Route)

abbrev pub on_words : Option Words → (Words → Loaded) → Loaded
on_words none rest = none
on_words (some b) rest = rest b

module _ (scan : Bytes → List Bytes) (inet_aton : Bytes → Option ℕ) where
  -- The three conversions of a line, in order.
  unfoldable pub addresses : Words → Option (ℕ × (ℕ × ℕ))
  addresses b = elim (inet_aton b.dest) [
    | none ↦ none
    | some d ↦ elim (inet_aton b.gw) [
      | none ↦ none
      | some g ↦ elim (inet_aton b.mask) [ none ↦ none | some m ↦ some (d, (g, m)) ]
    ]
  ]

  -- The rest of the loop's body. Only the first entry clears the table.
  unfoldable pub add_line : Bool → Option (ℕ × (ℕ × ℕ)) → Name → List Route → Option (List Route)
  add_line cleared none iface table = none
  add_line cleared (some (d, (g, m))) iface table =
      some (sr_add_rt_entry (if cleared then table else []) d g m iface)

  -- A table, or the return of -1 with what was loaded before.
  unfoldable pub go_on_loading : Option (List Route) → List Route → (List Route → Loaded) → Loaded
  go_on_loading none table rest = some (false, table)
  go_on_loading (some table') table rest = rest table'

  unfoldable pub load_lines : List Bytes → Words → Bool → List Route → Loaded
  load_lines [] b cleared table = some (true, table)
  load_lines (line ∷ lines) b cleared table = on_words (scan_into (scan line) b) (λ b'.
      go_on_loading (add_line cleared (addresses b') b'.iface table) table
        (load_lines lines b' true))

  -- `none` is a file that cannot be read. `b` is what the buffers hold before the first line.
  unfoldable pub sr_load_rt : Option (List Bytes) → Words → List Route → Loaded
  sr_load_rt none b table = some (false, table)
  sr_load_rt (some lines) b table = load_lines lines b false table

  -- The line holds the four words of the route, each of less than 32 bytes.
  pub record IsEntry (entry : Bytes × Route) : Type 0 where
    pub words : Words
    pub scanned : scan entry.0 ≡ words.dest ∷ words.gw ∷ words.mask ∷ words.iface ∷ []
    pub short : All (λ w. length w < 32) (words.dest ∷ words.gw ∷ words.mask ∷ words.iface ∷ [])
    pub to_dest : inet_aton words.dest ≡ some entry.1.dest
    pub to_gw : inet_aton words.gw ≡ some entry.1.gw
    pub to_mask : inet_aton words.mask ≡ some entry.1.mask
    pub named : take iface_namelen words.iface ≡ entry.1.interface

abbrev pub lines_of : List (Bytes × Route) → List Bytes
lines_of [] = []
lines_of (e ∷ es) = e.0 ∷ lines_of es

abbrev pub routes_of : List (Bytes × Route) → List Route
routes_of [] = []
routes_of (e ∷ es) = e.1 ∷ routes_of es

add_entry-append :
    (table : List Route) (d g m : ℕ) (name : Name)
    → sr_add_rt_entry table d g m name
      ≡ table ++ record { dest = d; gw = g; mask = m; interface = take iface_namelen name } ∷ []
unfolding sr_add_rt_entry
add_entry-append [] d g m name = refl
add_entry-append (r ∷ rs) d g m name = ap (λ t. r ∷ t) (add_entry-append rs d g m name)

module _ (scan : Bytes → List Bytes) (inet_aton : Bytes → Option ℕ) where
  addresses_of :
      (line : Bytes) (r : Route) (e : IsEntry scan inet_aton (line, r))
      → addresses scan inet_aton e.words ≡ some (r.dest, (r.gw, r.mask))
  unfolding addresses
  addresses_of line r e = rw (e.to_dest, addresses, e.to_gw, addresses, e.to_mask, addresses) refl

  entry_words :
      (line : Bytes) (r : Route) (b : Words) (e : IsEntry scan inet_aton (line, r))
      → scan_into (scan line) b ≡ some e.words
  unfolding scan_into
  entry_words line r b e =
      let (dest, (gw, (mask, (iface, none_more)))) = e.short in
      rw
        (
          e.scanned,
          lt→ltb (length e.words.dest) 32 dest,
          lt→ltb (length e.words.gw) 32 gw,
          lt→ltb (length e.words.mask) 32 mask,
          lt→ltb (length e.words.iface) 32 iface,
        )
        refl

  one_line :
      (line : Bytes) (r : Route) (lines : List Bytes) (b : Words) (cleared : Bool)
      (table : List Route)
      → (e : IsEntry scan inet_aton (line, r))
      → load_lines scan inet_aton (line ∷ lines) b cleared table
        ≡ load_lines scan inet_aton lines e.words true ((if cleared then table else []) ++ r ∷ [])
  unfolding load_lines written add_line go_on_loading
  one_line line r lines b cleared table e =
      rw (entry_words line r b e, addresses_of line r e, add_entry-append, e.named) refl

  more_lines :
      (entries : List (Bytes × Route)) (b : Words) (table : List Route)
      → All (IsEntry scan inet_aton) entries
      → load_lines scan inet_aton (lines_of entries) b true table
        ≡ some (true, table ++ routes_of entries)
  unfolding load_lines
  more_lines [] b table h = ap (λ t. some (true, t)) (sym (append-nil table))
  more_lines (e ∷ es) b table h =
      one_line e.0 e.1 (lines_of es) b true table h.0
      ∙ more_lines es h.0.words (table ++ e.1 ∷ []) h.1
      ∙ ap (λ t. some (true, t)) (append_assoc table (e.1 ∷ []) (routes_of es))

-- A file with one route to a line, at least one, and words of less than 32 bytes replaces whatever table there was by its routes,
-- in the order of the lines.
pub sr_load_rt_loads :
    (scan : Bytes → List Bytes) (inet_aton : Bytes → Option ℕ) (e : Bytes × Route)
    (es : List (Bytes × Route)) (b : Words) (table : List Route)
    → All (IsEntry scan inet_aton) (e ∷ es)
    → sr_load_rt scan inet_aton (some (lines_of (e ∷ es))) b table ≡ some (true, routes_of (e ∷ es))
unfolding sr_load_rt
sr_load_rt_loads scan inet_aton e es b table h =
    one_line scan inet_aton e.0 e.1 (lines_of es) b false table h.0
    ∙ more_lines scan inet_aton es h.0.words (e.1 ∷ []) h.1

-- A line with no word on it adds the route of the line before it once more.
blank_line_repeats :
    (scan : Bytes → List Bytes) (inet_aton : Bytes → Option ℕ) (line blank : Bytes) (r : Route)
    (b : Words) (table : List Route)
    → IsEntry scan inet_aton (line, r)
    → scan blank ≡ []
    → sr_load_rt scan inet_aton (some (line ∷ blank ∷ [])) b table ≡ some (true, r ∷ r ∷ [])
unfolding sr_load_rt
blank_line_repeats scan inet_aton line blank r b table e empty =
    one_line scan inet_aton line r (blank ∷ []) b false table e
    ∙ unfold load_lines scan_into add_line go_on_loading in
      rw (empty, addresses_of scan inet_aton line r e, add_entry-append, e.named) refl
