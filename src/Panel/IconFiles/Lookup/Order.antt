-- ===== src/Panel/IconFiles/Lookup/Order.antt =====
-- The order in which the files of an icon are tried, nizam-panel/src/main.c, as one list of paths
-- that are written out whole.
use mathlib.Core.List.{flat_map}
use nizam.Prelude.{
  ℕ, ◌+◌, ◌-◌, ◌≤◌, ◌≡◌, ◌∙◌, refl, sym, ap, List, [], ◌∷◌, ◌++◌, map, arith, All, Option, length,
  length-append, take_of_length-le,
}
use nizam.Text.{Bytes, codes, fit}
use nizam.Panel.IconFiles.{
  Disk, load_icon_from_path, load_svg_icon_from_path, or_next, first_icon, slash, square, icon_dirs,
  raster_need, raster_path, try_icon_path_raster, svg_need, svg_path, svg_size_dirs, svg_names,
  try_icon_path_svg,
}
use nizam.Panel.IconFiles.First.{
  or_next-none, first_icon-append, first_icon_ext, each_of, each, first_icon-map,
  first_icon-flat_map, nested,
}
use nizam.Panel.IconFiles.Lookup.{
  themes, sizes, raster_in_themes, svg_in_themes, scalable_apps, pixmaps, in_pixmaps,
  outside_themes, load_lookup,
}

-- A path, with the loader that reads it.
pub data Attempt : Type 0 where
  raster : Bytes → Attempt
  svg : Bytes → Attempt

unfoldable pub attempt : Disk → ℕ → Attempt → Option ℕ
unfolding load_icon_from_path load_svg_icon_from_path
attempt d size (raster path) = load_icon_from_path d path
attempt d size (svg path) = load_svg_icon_from_path d size path

unfoldable pub raster_attempts : List Bytes → Bytes → List Attempt
unfolding flat_map
raster_attempts roots lookup =
    flat_map
      (λ theme.
        flat_map
          (λ root.
            flat_map
              (λ sz.
                map (λ dir. raster (raster_path root theme sz lookup (codes ".png") dir)) icon_dirs
                ++ map (λ dir. raster (raster_path root theme sz lookup (codes ".xpm") dir))
                    icon_dirs)
              sizes)
          roots)
      themes

unfoldable pub svg_attempts : List Bytes → Bytes → List Attempt
unfolding flat_map svg_names
svg_attempts roots lookup =
    flat_map
      (λ theme.
        flat_map
          (λ root.
            flat_map
              (λ size_dir.
                flat_map
                  (λ dir. map (λ c. svg (svg_path root theme size_dir dir c)) (svg_names lookup))
                  icon_dirs)
              svg_size_dirs)
          roots)
      themes

unfoldable pub outside_attempts : Bytes → List Attempt
outside_attempts lookup =
    svg (fit 1024 (scalable_apps lookup))
    ∷ raster (fit 1024 (pixmaps (lookup ++ codes ".png")))
    ∷ raster (fit 1024 (pixmaps (lookup ++ codes ".xpm")))
    ∷ svg (fit 1024 (pixmaps (lookup ++ codes ".svg")))
    ∷ []

-- The raster icons of the themes, their scalable icons, and the icons outside the themes.
unfoldable pub attempts : List Bytes → Bytes → List Attempt
attempts roots lookup =
    raster_attempts roots lookup ++ (svg_attempts roots lookup ++ outside_attempts lookup)

length-slash : (a b : Bytes) → length (slash a b) ≡ length a + 1 + length b
length-slash a b = omega (arith, length-append a (b'/' ∷ b))

-- No path of a raster icon is cut by the buffer that is allocated for it.
raster_whole :
    (root theme sz name ext dir : Bytes)
    → length sz ≤ 4
    → fit (raster_need root theme dir name ext) (raster_path root theme sz name ext dir)
      ≡ raster_path root theme sz name ext dir
unfolding raster_need
raster_whole root theme sz name ext dir h =
    let file = name ++ ext in
    let inner = slash dir file in
    let sized = slash (square sz) inner in
    take_of_length-le (raster_need root theme dir name ext - 1)
      (raster_path root theme sz name ext dir)
      (omega (
        arith,
        length-append name ext,
        length-slash dir file,
        length-append sz (b'x' ∷ sz),
        length-slash (square sz) inner,
        length-slash theme sized,
        length-slash root (slash theme sized),
      ))

svg_whole :
    (root theme size_dir dir name : Bytes)
    → fit (svg_need root theme size_dir dir name) (svg_path root theme size_dir dir name)
      ≡ svg_path root theme size_dir dir name
unfolding svg_need
svg_whole root theme size_dir dir name =
    let file = name ++ codes ".svg" in
    let inner = slash dir file in
    let sized = slash size_dir inner in
    take_of_length-le (svg_need root theme size_dir dir name - 1)
      (svg_path root theme size_dir dir name)
      (omega (
        arith,
        length-append name (codes ".svg"),
        length-slash dir file,
        length-slash size_dir inner,
        length-slash theme sized,
        length-slash root (slash theme sized),
      ))

module _ (d : Disk) (size : ℕ) where
  raster_dirs :
      (root theme sz name ext : Bytes)
      → length sz ≤ 4
      → try_icon_path_raster d root theme sz name ext
        ≡ first_icon
            (attempt d size)
            (map (λ dir. raster (raster_path root theme sz name ext dir)) icon_dirs)
  unfolding try_icon_path_raster attempt
  raster_dirs root theme sz name ext h =
      let path : Bytes → Bytes = raster_path root theme sz name ext in
      let at : Bytes → Bytes = λ dir. fit (raster_need root theme dir name ext) (path dir) in
      first_icon_ext (λ dir. load_icon_from_path d (at dir))
        (λ dir. load_icon_from_path d (path dir)) icon_dirs
        (each (λ dir. load_icon_from_path d (at dir) ≡ load_icon_from_path d (path dir)) icon_dirs
          (λ dir. ap (load_icon_from_path d) (raster_whole root theme sz name ext dir h)))
      ∙ sym (first_icon-map (attempt d size) (λ dir. raster (path dir)) icon_dirs)

  two_exts : Bytes → Bytes → Bytes → Bytes → List Attempt
  two_exts root theme name sz =
      map (λ dir. raster (raster_path root theme sz name (codes ".png") dir)) icon_dirs
      ++ map (λ dir. raster (raster_path root theme sz name (codes ".xpm") dir)) icon_dirs

  at_size : Bytes → Bytes → Bytes → Bytes → Option ℕ
  at_size root theme name sz =
      or_next (try_icon_path_raster d root theme sz name (codes ".png"))
        (try_icon_path_raster d root theme sz name (codes ".xpm"))

  at_size_flat :
      (root theme name sz : Bytes)
      → length sz ≤ 4
      → at_size root theme name sz ≡ first_icon (attempt d size) (two_exts root theme name sz)
  unfolding at_size two_exts
  at_size_flat root theme name sz h =
      let path : Bytes → Bytes → Attempt =
        λ ext dir. raster (raster_path root theme sz name ext dir) in
      rw
        (
          raster_dirs root theme sz name (codes ".png") h,
          raster_dirs root theme sz name (codes ".xpm") h,
        )
        (sym (
          first_icon-append (attempt d size) (map (path (codes ".png")) icon_dirs)
            (map (path (codes ".xpm")) icon_dirs)))

  raster_flat :
      (roots : List Bytes) (name : Bytes)
      → raster_in_themes d roots name ≡ first_icon (attempt d size) (raster_attempts roots name)
  unfolding raster_in_themes raster_attempts at_size two_exts
  raster_flat roots name =
      let short : All (λ sz. length sz ≤ 4) sizes = ground arith in
      let f = attempt d size in
      let in_root : Bytes → Bytes → List Attempt =
        λ theme root. flat_map (two_exts root theme name) sizes in
      nested f (λ theme. flat_map (in_root theme) roots)
        (λ theme. first_icon (λ root. first_icon (at_size root theme name) sizes) roots) themes
        (λ theme.
          nested f (in_root theme) (λ root. first_icon (at_size root theme name) sizes) roots
            (λ root.
              first_icon-flat_map f (two_exts root theme name) (at_size root theme name) sizes (
                each_of (λ sz. length sz ≤ 4)
                  (λ sz. at_size root theme name sz ≡ first_icon f (two_exts root theme name sz))
                  sizes (λ sz h. at_size_flat root theme name sz h) short)))

  svg_dir : Bytes → Bytes → Bytes → Bytes → Bytes → List Attempt
  unfolding svg_names
  svg_dir root theme name size_dir dir =
      map (λ c. svg (svg_path root theme size_dir dir c)) (svg_names name)

  at_svg_dir : Bytes → Bytes → Bytes → Bytes → Bytes → Option ℕ
  unfolding first_icon load_svg_icon_from_path svg_need svg_names
  at_svg_dir root theme name size_dir dir =
      first_icon
        (λ c.
          load_svg_icon_from_path d size
            (fit (svg_need root theme size_dir dir c) (svg_path root theme size_dir dir c)))
        (svg_names name)

  at_svg_dir_flat :
      (root theme name size_dir dir : Bytes)
      → at_svg_dir root theme name size_dir dir
        ≡ first_icon (attempt d size) (svg_dir root theme name size_dir dir)
  unfolding at_svg_dir svg_dir attempt
  at_svg_dir_flat root theme name size_dir dir =
      let path : Bytes → Bytes = svg_path root theme size_dir dir in
      let at : Bytes → Bytes = λ c. fit (svg_need root theme size_dir dir c) (path c) in
      let load = load_svg_icon_from_path d size in
      first_icon_ext (λ c. load (at c)) (λ c. load (path c)) (svg_names name)
        (each (λ c. load (at c) ≡ load (path c)) (svg_names name)
          (λ c. ap load (svg_whole root theme size_dir dir c)))
      ∙ sym (first_icon-map (attempt d size) (λ c. svg (path c)) (svg_names name))

  try_svg_flat :
      (root theme name : Bytes)
      → try_icon_path_svg d root theme name size
        ≡ first_icon (attempt d size) (
            flat_map
              (λ size_dir. flat_map (svg_dir root theme name size_dir) icon_dirs)
              svg_size_dirs)
  unfolding try_icon_path_svg at_svg_dir
  try_svg_flat root theme name =
      let f = attempt d size in
      nested f (λ size_dir. flat_map (svg_dir root theme name size_dir) icon_dirs)
        (λ size_dir. first_icon (at_svg_dir root theme name size_dir) icon_dirs) svg_size_dirs
        (λ size_dir.
          nested f (svg_dir root theme name size_dir) (at_svg_dir root theme name size_dir)
            icon_dirs (λ dir. at_svg_dir_flat root theme name size_dir dir))

  svg_flat :
      (roots : List Bytes) (name : Bytes)
      → svg_in_themes d roots name size ≡ first_icon (attempt d size) (svg_attempts roots name)
  unfolding svg_in_themes svg_attempts svg_dir
  svg_flat roots name =
      let f = attempt d size in
      let in_root : Bytes → Bytes → List Attempt = λ theme root.
        flat_map (λ size_dir. flat_map (svg_dir root theme name size_dir) icon_dirs)
          svg_size_dirs in
      nested f (λ theme. flat_map (in_root theme) roots)
        (λ theme. first_icon (λ root. try_icon_path_svg d root theme name size) roots) themes
        (λ theme.
          nested f (in_root theme) (λ root. try_icon_path_svg d root theme name size) roots
            (λ root. try_svg_flat root theme name))

  outside_flat :
      (name : Bytes)
      → outside_themes d name size ≡ first_icon (attempt d size) (outside_attempts name)
  unfolding outside_themes in_pixmaps outside_attempts first_icon attempt
  outside_flat name =
      rw (or_next-none (load_svg_icon_from_path d size (fit 1024 (pixmaps (name ++ codes ".svg")))))
        refl

-- The icon of a name is the first that loads in one list of paths, those of the themes written out
-- whole: no buffer that is allocated for one of them cuts it.
pub load_lookup_flat :
    (d : Disk) (roots : List Bytes) (name : Bytes) (size : ℕ)
    → load_lookup d roots name size ≡ first_icon (attempt d size) (attempts roots name)
unfolding load_lookup attempts
load_lookup_flat d roots name size =
    rw (raster_flat d size roots name, svg_flat d size roots name, outside_flat d size name)
      (sym (
        first_icon-append (attempt d size) (raster_attempts roots name)
          (svg_attempts roots name ++ outside_attempts name)
        ∙ ap (or_next (first_icon (attempt d size) (raster_attempts roots name)))
            (first_icon-append (attempt d size) (svg_attempts roots name) (outside_attempts name))))
