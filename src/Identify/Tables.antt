-- ===== src/Identify/Tables.antt =====
-- crates/prek-identify/src/tags.rs: the tables of tags by the interpreter of a script, by the extension and by
-- the name of a file. `phf::Map::get` finds the entry of an equal key.
use prek.Prelude.{
  ℕ, String, Option, none, some, List, [], ◌∷◌, if◌then◌else◌, Bytes, codes, eq_bytes,
}

-- Keys with the ids that `TagSet::new` is given.
abbrev pub Table : Type 0
Table = List (String × List ℕ)

unfoldable pub lookup : Table → Bytes → Option (List ℕ)
lookup [] key = none
lookup ((other, ids) ∷ table) key =
    let rest = lookup table key in if eq_bytes (codes other) key then some ids else rest

unfoldable pub interpreters : Table
interpreters =
    ("ash", 5 ∷ 242 ∷ [])
    ∷ ("awk", 12 ∷ [])
    ∷ ("bash", 14 ∷ 242 ∷ [])
    ∷ ("bats", 14 ∷ 16 ∷ 242 ∷ [])
    ∷ ("cbsd", 35 ∷ 242 ∷ [])
    ∷ ("csh", 43 ∷ 242 ∷ [])
    ∷ ("dash", 54 ∷ 242 ∷ [])
    ∷ ("escript", 73 ∷ [])
    ∷ ("expect", 75 ∷ [])
    ∷ ("ksh", 146 ∷ 242 ∷ [])
    ∷ ("node", 130 ∷ [])
    ∷ ("nodejs", 130 ∷ [])
    ∷ ("nu", 182 ∷ [])
    ∷ ("nushell", 182 ∷ [])
    ∷ ("perl", 192 ∷ [])
    ∷ ("php", 193 ∷ [])
    ∷ ("php7", 193 ∷ 194 ∷ [])
    ∷ ("php8", 193 ∷ 195 ∷ [])
    ∷ ("python", 219 ∷ [])
    ∷ ("python2", 219 ∷ 220 ∷ [])
    ∷ ("python3", 219 ∷ 221 ∷ [])
    ∷ ("ruby", 230 ∷ [])
    ∷ ("sh", 241 ∷ 242 ∷ [])
    ∷ ("tcsh", 242 ∷ 258 ∷ [])
    ∷ ("zsh", 242 ∷ 323 ∷ [])
    ∷ []

unfoldable pub extensions : Table
extensions =
    ("adoc", 4 ∷ 262 ∷ [])
    ∷ ("ai", 0 ∷ 21 ∷ [])
    ∷ ("aj", 7 ∷ 262 ∷ [])
    ∷ ("apinotes", 2 ∷ 262 ∷ [])
    ∷ ("asar", 3 ∷ 21 ∷ [])
    ∷ ("asciidoc", 4 ∷ 262 ∷ [])
    ∷ ("asm", 6 ∷ 262 ∷ [])
    ∷ ("astro", 8 ∷ 262 ∷ [])
    ∷ ("avif", 10 ∷ 21 ∷ 118 ∷ [])
    ∷ ("avsc", 11 ∷ 262 ∷ [])
    ∷ ("bash", 14 ∷ 242 ∷ 262 ∷ [])
    ∷ ("bat", 15 ∷ 262 ∷ [])
    ∷ ("bats", 14 ∷ 16 ∷ 242 ∷ 262 ∷ [])
    ∷ ("bazel", 17 ∷ 262 ∷ [])
    ∷ ("bb", 22 ∷ 262 ∷ [])
    ∷ ("bbappend", 22 ∷ 262 ∷ [])
    ∷ ("bbclass", 22 ∷ 262 ∷ [])
    ∷ ("beancount", 19 ∷ 262 ∷ [])
    ∷ ("bib", 20 ∷ 262 ∷ [])
    ∷ ("bmp", 21 ∷ 23 ∷ 118 ∷ [])
    ∷ ("bz2", 21 ∷ 26 ∷ [])
    ∷ ("bz3", 21 ∷ 27 ∷ [])
    ∷ ("bzl", 17 ∷ 262 ∷ [])
    ∷ ("c", 28 ∷ 262 ∷ [])
    ∷ ("c++", 31 ∷ 262 ∷ [])
    ∷ ("c++m", 31 ∷ 262 ∷ [])
    ∷ ("cc", 31 ∷ 262 ∷ [])
    ∷ ("ccm", 31 ∷ 262 ∷ [])
    ∷ ("cfg", 262 ∷ [])
    ∷ ("chs", 32 ∷ 262 ∷ [])
    ∷ ("cjs", 130 ∷ 262 ∷ [])
    ∷ ("clj", 36 ∷ 262 ∷ [])
    ∷ ("cljc", 36 ∷ 262 ∷ [])
    ∷ ("cljs", 36 ∷ 37 ∷ 262 ∷ [])
    ∷ ("cmake", 38 ∷ 262 ∷ [])
    ∷ ("cmd", 15 ∷ 262 ∷ [])
    ∷ ("cnf", 262 ∷ [])
    ∷ ("coffee", 40 ∷ 262 ∷ [])
    ∷ ("conf", 262 ∷ [])
    ∷ ("cpp", 31 ∷ 262 ∷ [])
    ∷ ("cppm", 31 ∷ 262 ∷ [])
    ∷ ("cr", 42 ∷ 262 ∷ [])
    ∷ ("crt", 191 ∷ 262 ∷ [])
    ∷ ("cs", 29 ∷ 262 ∷ [])
    ∷ ("csh", 43 ∷ 242 ∷ 262 ∷ [])
    ∷ ("cson", 44 ∷ 262 ∷ [])
    ∷ ("csproj", 45 ∷ 171 ∷ 262 ∷ 310 ∷ [])
    ∷ ("css", 46 ∷ 262 ∷ [])
    ∷ ("csv", 48 ∷ 262 ∷ [])
    ∷ ("csx", 29 ∷ 30 ∷ 262 ∷ [])
    ∷ ("cts", 262 ∷ 268 ∷ [])
    ∷ ("cu", 49 ∷ 262 ∷ [])
    ∷ ("cue", 50 ∷ 262 ∷ [])
    ∷ ("cuh", 49 ∷ 262 ∷ [])
    ∷ ("cxx", 31 ∷ 262 ∷ [])
    ∷ ("cxxm", 31 ∷ 262 ∷ [])
    ∷ ("cylc", 51 ∷ 262 ∷ [])
    ∷ ("dart", 53 ∷ 262 ∷ [])
    ∷ ("dbc", 55 ∷ 262 ∷ [])
    ∷ ("def", 56 ∷ 262 ∷ [])
    ∷ ("diff", 57 ∷ 262 ∷ [])
    ∷ ("dll", 21 ∷ [])
    ∷ ("dtd", 62 ∷ 262 ∷ [])
    ∷ ("ear", 21 ∷ 127 ∷ 321 ∷ [])
    ∷ ("edn", 36 ∷ 64 ∷ 262 ∷ [])
    ∷ ("ejs", 65 ∷ 262 ∷ [])
    ∷ ("ejson", 66 ∷ 136 ∷ 262 ∷ [])
    ∷ ("elm", 68 ∷ 262 ∷ [])
    ∷ ("entitlements", 69 ∷ 201 ∷ [])
    ∷ ("env", 61 ∷ 262 ∷ [])
    ∷ ("eot", 21 ∷ 70 ∷ [])
    ∷ ("eps", 21 ∷ 71 ∷ [])
    ∷ ("erb", 72 ∷ 262 ∷ [])
    ∷ ("erl", 73 ∷ 262 ∷ [])
    ∷ ("escript", 73 ∷ 262 ∷ [])
    ∷ ("ex", 67 ∷ 262 ∷ [])
    ∷ ("exe", 21 ∷ [])
    ∷ ("exs", 67 ∷ 262 ∷ [])
    ∷ ("eyaml", 262 ∷ 314 ∷ [])
    ∷ ("f03", 82 ∷ 262 ∷ [])
    ∷ ("f08", 82 ∷ 262 ∷ [])
    ∷ ("f90", 82 ∷ 262 ∷ [])
    ∷ ("f95", 82 ∷ 262 ∷ [])
    ∷ ("feature", 88 ∷ 262 ∷ [])
    ∷ ("fish", 79 ∷ 262 ∷ [])
    ∷ ("fits", 21 ∷ 80 ∷ [])
    ∷ ("fs", 76 ∷ 262 ∷ [])
    ∷ ("fsproj", 83 ∷ 171 ∷ 262 ∷ 310 ∷ [])
    ∷ ("fsx", 76 ∷ 77 ∷ 262 ∷ [])
    ∷ ("gd", 84 ∷ 262 ∷ [])
    ∷ ("gemspec", 230 ∷ 262 ∷ [])
    ∷ ("geojson", 86 ∷ 136 ∷ 262 ∷ [])
    ∷ ("ggb", 21 ∷ 87 ∷ 321 ∷ [])
    ∷ ("gif", 21 ∷ 89 ∷ 118 ∷ [])
    ∷ ("gleam", 95 ∷ 262 ∷ [])
    ∷ ("go", 96 ∷ 262 ∷ [])
    ∷ ("gotmpl", 99 ∷ 262 ∷ [])
    ∷ ("gpx", 100 ∷ 262 ∷ 310 ∷ [])
    ∷ ("gradle", 102 ∷ 262 ∷ [])
    ∷ ("graphql", 101 ∷ 262 ∷ [])
    ∷ ("groovy", 102 ∷ 262 ∷ [])
    ∷ ("gyb", 103 ∷ 262 ∷ [])
    ∷ ("gyp", 104 ∷ 219 ∷ 262 ∷ [])
    ∷ ("gypi", 104 ∷ 219 ∷ 262 ∷ [])
    ∷ ("gz", 21 ∷ 105 ∷ [])
    ∷ ("h", 28 ∷ 31 ∷ 109 ∷ 262 ∷ [])
    ∷ ("hbs", 106 ∷ 262 ∷ [])
    ∷ ("hcl", 108 ∷ 262 ∷ [])
    ∷ ("hh", 31 ∷ 109 ∷ 262 ∷ [])
    ∷ ("hlsl", 111 ∷ 262 ∷ [])
    ∷ ("hlsli", 111 ∷ 262 ∷ [])
    ∷ ("hpp", 31 ∷ 109 ∷ 262 ∷ [])
    ∷ ("hrl", 73 ∷ 262 ∷ [])
    ∷ ("hs", 107 ∷ 262 ∷ [])
    ∷ ("htm", 112 ∷ 262 ∷ [])
    ∷ ("html", 112 ∷ 262 ∷ [])
    ∷ ("hxx", 31 ∷ 109 ∷ 262 ∷ [])
    ∷ ("icns", 21 ∷ 114 ∷ [])
    ∷ ("ico", 21 ∷ 115 ∷ [])
    ∷ ("ics", 113 ∷ 262 ∷ [])
    ∷ ("idl", 116 ∷ 262 ∷ [])
    ∷ ("idr", 117 ∷ 262 ∷ [])
    ∷ ("inc", 119 ∷ 262 ∷ [])
    ∷ ("ini", 120 ∷ 262 ∷ [])
    ∷ ("inl", 31 ∷ 121 ∷ 262 ∷ [])
    ∷ ("ino", 31 ∷ 122 ∷ 262 ∷ [])
    ∷ ("inx", 123 ∷ 262 ∷ 310 ∷ [])
    ∷ ("ipp", 31 ∷ 262 ∷ [])
    ∷ ("ipxe", 124 ∷ 262 ∷ [])
    ∷ ("ipynb", 136 ∷ 143 ∷ 262 ∷ [])
    ∷ ("ixx", 31 ∷ 262 ∷ [])
    ∷ ("j2", 133 ∷ 262 ∷ [])
    ∷ ("jade", 126 ∷ 262 ∷ [])
    ∷ ("jar", 21 ∷ 127 ∷ 321 ∷ [])
    ∷ ("java", 128 ∷ 262 ∷ [])
    ∷ ("jbuilder", 131 ∷ 230 ∷ 262 ∷ [])
    ∷ ("jenkins", 102 ∷ 132 ∷ 262 ∷ [])
    ∷ ("jenkinsfile", 102 ∷ 132 ∷ 262 ∷ [])
    ∷ ("jinja", 133 ∷ 262 ∷ [])
    ∷ ("jinja2", 133 ∷ 262 ∷ [])
    ∷ ("jl", 142 ∷ 262 ∷ [])
    ∷ ("jpeg", 21 ∷ 118 ∷ 134 ∷ [])
    ∷ ("jpg", 21 ∷ 118 ∷ 134 ∷ [])
    ∷ ("js", 130 ∷ 262 ∷ [])
    ∷ ("json", 136 ∷ 262 ∷ [])
    ∷ ("json5", 137 ∷ 262 ∷ [])
    ∷ ("jsonc", 138 ∷ 262 ∷ [])
    ∷ ("jsonld", 136 ∷ 139 ∷ 262 ∷ [])
    ∷ ("jsonnet", 140 ∷ 262 ∷ [])
    ∷ ("jsx", 141 ∷ 262 ∷ [])
    ∷ ("key", 191 ∷ 262 ∷ [])
    ∷ ("kml", 144 ∷ 262 ∷ 310 ∷ [])
    ∷ ("kt", 145 ∷ 262 ∷ [])
    ∷ ("kts", 145 ∷ 262 ∷ [])
    ∷ ("lean", 149 ∷ 262 ∷ [])
    ∷ ("lektorproject", 120 ∷ 151 ∷ 262 ∷ [])
    ∷ ("less", 152 ∷ 262 ∷ [])
    ∷ ("lfm", 147 ∷ 148 ∷ 262 ∷ [])
    ∷ ("lhs", 154 ∷ 262 ∷ [])
    ∷ ("libsonnet", 140 ∷ 262 ∷ [])
    ∷ ("lidr", 117 ∷ 262 ∷ [])
    ∷ ("liquid", 153 ∷ 262 ∷ [])
    ∷ ("lpi", 147 ∷ 262 ∷ 310 ∷ [])
    ∷ ("lpr", 147 ∷ 188 ∷ 262 ∷ [])
    ∷ ("lr", 150 ∷ 262 ∷ [])
    ∷ ("lua", 155 ∷ 262 ∷ [])
    ∷ ("luau", 156 ∷ 262 ∷ [])
    ∷ ("m", 183 ∷ 262 ∷ [])
    ∷ ("m4", 157 ∷ 262 ∷ [])
    ∷ ("magik", 158 ∷ 262 ∷ [])
    ∷ ("make", 160 ∷ 262 ∷ [])
    ∷ ("manifest", 161 ∷ 262 ∷ [])
    ∷ ("map", 162 ∷ 262 ∷ [])
    ∷ ("markdown", 163 ∷ 262 ∷ [])
    ∷ ("md", 163 ∷ 262 ∷ [])
    ∷ ("mdx", 164 ∷ 262 ∷ [])
    ∷ ("meson", 166 ∷ 262 ∷ [])
    ∷ ("metal", 168 ∷ 262 ∷ [])
    ∷ ("mib", 169 ∷ 262 ∷ [])
    ∷ ("mjs", 130 ∷ 262 ∷ [])
    ∷ ("mk", 160 ∷ 262 ∷ [])
    ∷ ("ml", 185 ∷ 262 ∷ [])
    ∷ ("mli", 185 ∷ 262 ∷ [])
    ∷ ("mm", 31 ∷ 184 ∷ 262 ∷ [])
    ∷ ("modulemap", 170 ∷ 262 ∷ [])
    ∷ ("mscx", 172 ∷ 262 ∷ 310 ∷ [])
    ∷ ("mscz", 21 ∷ 172 ∷ 321 ∷ [])
    ∷ ("mts", 262 ∷ 268 ∷ [])
    ∷ ("mustache", 173 ∷ 262 ∷ [])
    ∷ ("myst", 174 ∷ 262 ∷ [])
    ∷ ("ngdoc", 175 ∷ 262 ∷ [])
    ∷ ("nim", 176 ∷ 262 ∷ [])
    ∷ ("nimble", 177 ∷ 262 ∷ [])
    ∷ ("nims", 176 ∷ 262 ∷ [])
    ∷ ("nix", 178 ∷ 262 ∷ [])
    ∷ ("njk", 181 ∷ 262 ∷ [])
    ∷ ("nu", 182 ∷ 262 ∷ [])
    ∷ ("otf", 21 ∷ 186 ∷ [])
    ∷ ("p12", 21 ∷ 187 ∷ [])
    ∷ ("pas", 188 ∷ 262 ∷ [])
    ∷ ("patch", 57 ∷ 262 ∷ [])
    ∷ ("pdf", 21 ∷ 190 ∷ [])
    ∷ ("pem", 191 ∷ 262 ∷ [])
    ∷ ("php", 193 ∷ 262 ∷ [])
    ∷ ("php4", 193 ∷ 262 ∷ [])
    ∷ ("php5", 193 ∷ 262 ∷ [])
    ∷ ("phtml", 193 ∷ 262 ∷ [])
    ∷ ("piskel", 136 ∷ 197 ∷ 262 ∷ [])
    ∷ ("pl", 192 ∷ 262 ∷ [])
    ∷ ("plantuml", 200 ∷ 262 ∷ [])
    ∷ ("plist", 201 ∷ [])
    ∷ ("pm", 192 ∷ 262 ∷ [])
    ∷ ("png", 21 ∷ 118 ∷ 202 ∷ [])
    ∷ ("po", 204 ∷ 262 ∷ [])
    ∷ ("pom", 205 ∷ 262 ∷ 310 ∷ [])
    ∷ ("pp", 212 ∷ 262 ∷ [])
    ∷ ("ppm", 118 ∷ 207 ∷ [])
    ∷ ("prisma", 209 ∷ 262 ∷ [])
    ∷ ("properties", 129 ∷ 262 ∷ [])
    ∷ ("props", 171 ∷ 262 ∷ 310 ∷ [])
    ∷ ("proto", 210 ∷ 262 ∷ [])
    ∷ ("ps1", 206 ∷ 262 ∷ [])
    ∷ ("psd1", 206 ∷ 262 ∷ [])
    ∷ ("psm1", 206 ∷ 262 ∷ [])
    ∷ ("pug", 211 ∷ 262 ∷ [])
    ∷ ("puml", 200 ∷ 262 ∷ [])
    ∷ ("purs", 213 ∷ 262 ∷ [])
    ∷ ("pxd", 52 ∷ 262 ∷ [])
    ∷ ("pxi", 52 ∷ 262 ∷ [])
    ∷ ("py", 219 ∷ 262 ∷ [])
    ∷ ("pyi", 214 ∷ 262 ∷ [])
    ∷ ("pyproj", 171 ∷ 217 ∷ 262 ∷ 310 ∷ [])
    ∷ ("pyt", 219 ∷ 262 ∷ [])
    ∷ ("pyw", 219 ∷ 262 ∷ [])
    ∷ ("pyx", 52 ∷ 262 ∷ [])
    ∷ ("pyz", 21 ∷ 222 ∷ [])
    ∷ ("pyzw", 21 ∷ 222 ∷ [])
    ∷ ("qmd", 224 ∷ 262 ∷ [])
    ∷ ("qml", 223 ∷ 262 ∷ [])
    ∷ ("r", 225 ∷ 262 ∷ [])
    ∷ ("rake", 230 ∷ 262 ∷ [])
    ∷ ("rb", 230 ∷ 262 ∷ [])
    ∷ ("resx", 227 ∷ 262 ∷ 310 ∷ [])
    ∷ ("rng", 226 ∷ 262 ∷ 310 ∷ [])
    ∷ ("robot", 228 ∷ 262 ∷ [])
    ∷ ("rs", 231 ∷ 262 ∷ [])
    ∷ ("rst", 229 ∷ 262 ∷ [])
    ∷ ("s", 6 ∷ 262 ∷ [])
    ∷ ("sas", 234 ∷ 262 ∷ [])
    ∷ ("sass", 235 ∷ 262 ∷ [])
    ∷ ("sbt", 236 ∷ 237 ∷ 262 ∷ [])
    ∷ ("sc", 237 ∷ 262 ∷ [])
    ∷ ("scala", 237 ∷ 262 ∷ [])
    ∷ ("scm", 238 ∷ 262 ∷ [])
    ∷ ("scss", 240 ∷ 262 ∷ [])
    ∷ ("sh", 242 ∷ 262 ∷ [])
    ∷ ("sln", 243 ∷ 262 ∷ [])
    ∷ ("slnx", 171 ∷ 244 ∷ 262 ∷ 310 ∷ [])
    ∷ ("sls", 232 ∷ 262 ∷ [])
    ∷ ("so", 21 ∷ [])
    ∷ ("sol", 246 ∷ 262 ∷ [])
    ∷ ("spec", 247 ∷ 262 ∷ [])
    ∷ ("sql", 248 ∷ 262 ∷ [])
    ∷ ("ss", 238 ∷ 262 ∷ [])
    ∷ ("sty", 261 ∷ 262 ∷ [])
    ∷ ("styl", 249 ∷ 262 ∷ [])
    ∷ ("sv", 256 ∷ 262 ∷ [])
    ∷ ("svelte", 250 ∷ 262 ∷ [])
    ∷ ("svg", 118 ∷ 251 ∷ 262 ∷ 310 ∷ [])
    ∷ ("svh", 256 ∷ 262 ∷ [])
    ∷ ("swf", 21 ∷ 252 ∷ [])
    ∷ ("swift", 253 ∷ 262 ∷ [])
    ∷ ("swiftdeps", 254 ∷ 262 ∷ [])
    ∷ ("tac", 219 ∷ 262 ∷ 273 ∷ [])
    ∷ ("tar", 21 ∷ 257 ∷ [])
    ∷ ("targets", 171 ∷ 262 ∷ 310 ∷ [])
    ∷ ("templ", 259 ∷ 262 ∷ [])
    ∷ ("tex", 261 ∷ 262 ∷ [])
    ∷ ("textproto", 262 ∷ 263 ∷ [])
    ∷ ("tf", 260 ∷ 262 ∷ [])
    ∷ ("tfvars", 260 ∷ 262 ∷ [])
    ∷ ("tgz", 21 ∷ 105 ∷ [])
    ∷ ("thrift", 262 ∷ 264 ∷ [])
    ∷ ("tif", 21 ∷ 118 ∷ 265 ∷ [])
    ∷ ("tiff", 21 ∷ 118 ∷ 265 ∷ [])
    ∷ ("toml", 262 ∷ 267 ∷ [])
    ∷ ("tpp", 31 ∷ 262 ∷ [])
    ∷ ("ts", 262 ∷ 268 ∷ [])
    ∷ ("tsv", 262 ∷ 269 ∷ [])
    ∷ ("tsx", 262 ∷ 270 ∷ [])
    ∷ ("ttf", 21 ∷ 271 ∷ [])
    ∷ ("twig", 262 ∷ 272 ∷ [])
    ∷ ("txsprofile", 120 ∷ 262 ∷ 274 ∷ [])
    ∷ ("txt", 199 ∷ 262 ∷ [])
    ∷ ("txtpb", 262 ∷ 263 ∷ [])
    ∷ ("urdf", 262 ∷ 275 ∷ 310 ∷ [])
    ∷ ("v", 262 ∷ 282 ∷ [])
    ∷ ("vala", 262 ∷ 277 ∷ [])
    ∷ ("vb", 262 ∷ 278 ∷ [])
    ∷ ("vbproj", 171 ∷ 262 ∷ 279 ∷ 310 ∷ [])
    ∷ ("vcxproj", 171 ∷ 262 ∷ 280 ∷ 310 ∷ [])
    ∷ ("vdx", 262 ∷ 281 ∷ [])
    ∷ ("vh", 262 ∷ 282 ∷ [])
    ∷ ("vhd", 262 ∷ 283 ∷ [])
    ∷ ("vim", 262 ∷ 284 ∷ [])
    ∷ ("vtl", 262 ∷ 285 ∷ [])
    ∷ ("vue", 262 ∷ 286 ∷ [])
    ∷ ("war", 21 ∷ 127 ∷ 321 ∷ [])
    ∷ ("wav", 9 ∷ 21 ∷ 287 ∷ [])
    ∷ ("webp", 21 ∷ 118 ∷ 288 ∷ [])
    ∷ ("whl", 21 ∷ 289 ∷ 321 ∷ [])
    ∷ ("wixproj", 262 ∷ 290 ∷ 310 ∷ [])
    ∷ ("wkt", 262 ∷ 291 ∷ [])
    ∷ ("woff", 21 ∷ 292 ∷ [])
    ∷ ("woff2", 21 ∷ 293 ∷ [])
    ∷ ("wsdl", 262 ∷ 294 ∷ 310 ∷ [])
    ∷ ("wsgi", 219 ∷ 262 ∷ 295 ∷ [])
    ∷ ("wxi", 262 ∷ 296 ∷ 310 ∷ [])
    ∷ ("wxl", 262 ∷ 297 ∷ 310 ∷ [])
    ∷ ("wxs", 262 ∷ 298 ∷ 310 ∷ [])
    ∷ ("xacro", 262 ∷ 275 ∷ 299 ∷ 310 ∷ [])
    ∷ ("xaml", 262 ∷ 300 ∷ 310 ∷ [])
    ∷ ("xcconfig", 262 ∷ 301 ∷ 302 ∷ [])
    ∷ ("xcprivacy", 201 ∷ 302 ∷ 303 ∷ [])
    ∷ ("xcscheme", 262 ∷ 302 ∷ 304 ∷ 310 ∷ [])
    ∷ ("xcsettings", 201 ∷ 302 ∷ 305 ∷ [])
    ∷ ("xctestplan", 136 ∷ 262 ∷ 302 ∷ 306 ∷ [])
    ∷ ("xcworkspacedata", 262 ∷ 302 ∷ 307 ∷ 310 ∷ [])
    ∷ ("xhtml", 112 ∷ 262 ∷ 308 ∷ 310 ∷ [])
    ∷ ("xlf", 262 ∷ 309 ∷ 310 ∷ [])
    ∷ ("xliff", 262 ∷ 309 ∷ 310 ∷ [])
    ∷ ("xml", 262 ∷ 310 ∷ [])
    ∷ ("xq", 262 ∷ 311 ∷ [])
    ∷ ("xql", 262 ∷ 311 ∷ [])
    ∷ ("xqm", 262 ∷ 311 ∷ [])
    ∷ ("xqu", 262 ∷ 311 ∷ [])
    ∷ ("xquery", 262 ∷ 311 ∷ [])
    ∷ ("xqy", 262 ∷ 311 ∷ [])
    ∷ ("xsd", 262 ∷ 310 ∷ 312 ∷ [])
    ∷ ("xsl", 262 ∷ 310 ∷ 313 ∷ [])
    ∷ ("xslt", 262 ∷ 310 ∷ 313 ∷ [])
    ∷ ("yaml", 262 ∷ 314 ∷ [])
    ∷ ("yamlld", 262 ∷ 314 ∷ 315 ∷ [])
    ∷ ("yang", 262 ∷ 317 ∷ [])
    ∷ ("yin", 262 ∷ 310 ∷ 318 ∷ [])
    ∷ ("yml", 262 ∷ 314 ∷ [])
    ∷ ("zcml", 262 ∷ 310 ∷ 319 ∷ [])
    ∷ ("zig", 262 ∷ 320 ∷ [])
    ∷ ("zip", 21 ∷ 321 ∷ [])
    ∷ ("zpt", 262 ∷ 322 ∷ [])
    ∷ ("zsh", 242 ∷ 262 ∷ 323 ∷ [])
    ∷ []

unfoldable pub names : Table
names =
    (".ansible-lint", 262 ∷ 314 ∷ [])
    ∷ (".babelrc", 13 ∷ 136 ∷ 262 ∷ [])
    ∷ (".bash_aliases", 14 ∷ 242 ∷ 262 ∷ [])
    ∷ (".bash_profile", 14 ∷ 242 ∷ 262 ∷ [])
    ∷ (".bashrc", 14 ∷ 242 ∷ 262 ∷ [])
    ∷ (".bazelrc", 18 ∷ 262 ∷ [])
    ∷ (".bowerrc", 24 ∷ 136 ∷ 262 ∷ [])
    ∷ (".browserslistrc", 25 ∷ 262 ∷ [])
    ∷ (".clang-format", 262 ∷ 314 ∷ [])
    ∷ (".clang-tidy", 262 ∷ 314 ∷ [])
    ∷ (".codespellrc", 39 ∷ 120 ∷ 262 ∷ [])
    ∷ (".coveragerc", 41 ∷ 120 ∷ 262 ∷ [])
    ∷ (".cshrc", 43 ∷ 242 ∷ 262 ∷ [])
    ∷ (".csslintrc", 47 ∷ 136 ∷ 262 ∷ [])
    ∷ (".dockerignore", 60 ∷ 262 ∷ [])
    ∷ (".editorconfig", 63 ∷ 262 ∷ [])
    ∷ (".envrc", 14 ∷ 242 ∷ 262 ∷ [])
    ∷ (".flake8", 81 ∷ 120 ∷ 262 ∷ [])
    ∷ (".gitattributes", 90 ∷ 262 ∷ [])
    ∷ (".gitconfig", 91 ∷ 120 ∷ 262 ∷ [])
    ∷ (".gitignore", 92 ∷ 262 ∷ [])
    ∷ (".gitlint", 93 ∷ 120 ∷ 262 ∷ [])
    ∷ (".gitmodules", 94 ∷ 262 ∷ [])
    ∷ (".hgrc", 110 ∷ 120 ∷ 262 ∷ [])
    ∷ (".isort.cfg", 120 ∷ 125 ∷ 262 ∷ [])
    ∷ (".jshintrc", 135 ∷ 136 ∷ 262 ∷ [])
    ∷ (".mailmap", 159 ∷ 262 ∷ [])
    ∷ (".mention-bot", 136 ∷ 165 ∷ 262 ∷ [])
    ∷ (".npmignore", 180 ∷ 262 ∷ [])
    ∷ (".pdbrc", 189 ∷ 219 ∷ 262 ∷ [])
    ∷ (".prettierignore", 92 ∷ 208 ∷ 262 ∷ [])
    ∷ (".profile", 242 ∷ 262 ∷ [])
    ∷ (".pypirc", 120 ∷ 216 ∷ 262 ∷ [])
    ∷ (".rstcheck.cfg", 120 ∷ 262 ∷ [])
    ∷ (".salt-lint", 233 ∷ 262 ∷ 314 ∷ [])
    ∷ (".sqlfluff", 120 ∷ 262 ∷ [])
    ∷ (".yamllint", 262 ∷ 314 ∷ 316 ∷ [])
    ∷ (".zlogin", 242 ∷ 262 ∷ 323 ∷ [])
    ∷ (".zlogout", 242 ∷ 262 ∷ 323 ∷ [])
    ∷ (".zprofile", 242 ∷ 262 ∷ 323 ∷ [])
    ∷ (".zshenv", 242 ∷ 262 ∷ 323 ∷ [])
    ∷ (".zshrc", 242 ∷ 262 ∷ 323 ∷ [])
    ∷ ("AUTHORS", 199 ∷ 262 ∷ [])
    ∷ ("BUILD", 17 ∷ 262 ∷ [])
    ∷ ("Brewfile", 230 ∷ 262 ∷ [])
    ∷ ("CHANGELOG", 199 ∷ 262 ∷ [])
    ∷ ("CMakeLists.txt", 38 ∷ 262 ∷ [])
    ∷ ("CONTRIBUTING", 199 ∷ 262 ∷ [])
    ∷ ("COPYING", 199 ∷ 262 ∷ [])
    ∷ ("Cargo.lock", 34 ∷ 262 ∷ 267 ∷ [])
    ∷ ("Cargo.toml", 33 ∷ 262 ∷ 267 ∷ [])
    ∷ ("Containerfile", 59 ∷ 262 ∷ [])
    ∷ ("Dockerfile", 59 ∷ 262 ∷ [])
    ∷ ("Fastfile", 230 ∷ 262 ∷ [])
    ∷ ("GNUmakefile", 160 ∷ 262 ∷ [])
    ∷ ("Gemfile", 230 ∷ 262 ∷ [])
    ∷ ("Gemfile.lock", 85 ∷ 262 ∷ [])
    ∷ ("Jenkinsfile", 102 ∷ 132 ∷ 262 ∷ [])
    ∷ ("LICENSE", 199 ∷ 262 ∷ [])
    ∷ ("MAINTAINERS", 199 ∷ 262 ∷ [])
    ∷ ("Makefile", 160 ∷ 262 ∷ [])
    ∷ ("NEWS", 199 ∷ 262 ∷ [])
    ∷ ("NOTICE", 199 ∷ 262 ∷ [])
    ∷ ("PATENTS", 199 ∷ 262 ∷ [])
    ∷ ("PKGBUILD", 1 ∷ 14 ∷ 198 ∷ 242 ∷ 262 ∷ [])
    ∷ ("Pipfile", 262 ∷ 267 ∷ [])
    ∷ ("Pipfile.lock", 136 ∷ 196 ∷ 262 ∷ [])
    ∷ ("README", 199 ∷ 262 ∷ [])
    ∷ ("Rakefile", 230 ∷ 262 ∷ [])
    ∷ ("SConscript", 239 ∷ 262 ∷ [])
    ∷ ("SConstruct", 239 ∷ 262 ∷ [])
    ∷ ("SCsub", 239 ∷ 262 ∷ [])
    ∷ ("Tiltfile", 262 ∷ 266 ∷ [])
    ∷ ("Vagrantfile", 230 ∷ 262 ∷ [])
    ∷ ("WORKSPACE", 17 ∷ 262 ∷ [])
    ∷ ("bblayers.conf", 22 ∷ 262 ∷ [])
    ∷ ("bitbake.conf", 22 ∷ 262 ∷ [])
    ∷ ("config.ru", 230 ∷ 262 ∷ [])
    ∷ ("copy.bara.sky", 17 ∷ 262 ∷ [])
    ∷ ("direnvrc", 14 ∷ 242 ∷ 262 ∷ [])
    ∷ ("go.mod", 97 ∷ 262 ∷ [])
    ∷ ("go.sum", 98 ∷ 262 ∷ [])
    ∷ ("makefile", 160 ∷ 262 ∷ [])
    ∷ ("meson.build", 166 ∷ 262 ∷ [])
    ∷ ("meson.options", 166 ∷ 167 ∷ 262 ∷ [])
    ∷ ("meson_options.txt", 166 ∷ 167 ∷ 262 ∷ [])
    ∷ ("poetry.lock", 203 ∷ 262 ∷ 267 ∷ [])
    ∷ ("pom.xml", 205 ∷ 262 ∷ 310 ∷ [])
    ∷ ("pylintrc", 120 ∷ 215 ∷ 262 ∷ [])
    ∷ ("pyproject.toml", 218 ∷ 262 ∷ 267 ∷ [])
    ∷ ("rebar.config", 73 ∷ 262 ∷ [])
    ∷ ("setup.cfg", 120 ∷ 262 ∷ [])
    ∷ ("sys.config", 73 ∷ 262 ∷ [])
    ∷ ("sys.config.src", 73 ∷ 262 ∷ [])
    ∷ ("uv.lock", 262 ∷ 267 ∷ 276 ∷ [])
    ∷ ("wscript", 219 ∷ 262 ∷ [])
    ∷ []
