-- ===== src/Identify/Tags.antt =====
-- crates/prek-identify/src/tags.rs: the names of the tags, in the order of their ids, and the ids
-- that the code names.
use prek.Prelude.{ℕ, List, [], ◌∷◌, Bytes, codes, map}

-- `ALL_TAGS.len()`
abbrev pub all_tags_len : ℕ
all_tags_len = 324

unfoldable pub all_tags : List Bytes
all_tags = map codes (
    "adobe-illustrator" ∷ "alpm" ∷ "apinotes" ∷ "asar" ∷ "asciidoc" ∷ "ash" ∷ "asm" ∷ "aspectj"
    ∷ "astro" ∷ "audio" ∷ "avif" ∷ "avro-schema" ∷ "awk" ∷ "babelrc" ∷ "bash" ∷ "batch" ∷ "bats"
    ∷ "bazel" ∷ "bazelrc" ∷ "beancount" ∷ "bib" ∷ "binary" ∷ "bitbake" ∷ "bitmap" ∷ "bowerrc"
    ∷ "browserslistrc" ∷ "bzip2" ∷ "bzip3" ∷ "c" ∷ "c#" ∷ "c#script" ∷ "c++" ∷ "c2hs" ∷ "cargo"
    ∷ "cargo-lock" ∷ "cbsd" ∷ "clojure" ∷ "clojurescript" ∷ "cmake" ∷ "codespellrc" ∷ "coffee"
    ∷ "coveragerc" ∷ "crystal" ∷ "csh" ∷ "cson" ∷ "csproj" ∷ "css" ∷ "csslintrc" ∷ "csv" ∷ "cuda"
    ∷ "cue" ∷ "cylc" ∷ "cython" ∷ "dart" ∷ "dash" ∷ "dbc" ∷ "def" ∷ "diff" ∷ "directory"
    ∷ "dockerfile" ∷ "dockerignore" ∷ "dotenv" ∷ "dtd" ∷ "editorconfig" ∷ "edn" ∷ "ejs" ∷ "ejson"
    ∷ "elixir" ∷ "elm" ∷ "entitlements" ∷ "eot" ∷ "eps" ∷ "erb" ∷ "erlang" ∷ "executable" ∷ "expect"
    ∷ "f#" ∷ "f#script" ∷ "file" ∷ "fish" ∷ "fits" ∷ "flake8" ∷ "fortran" ∷ "fsproj" ∷ "gdscript"
    ∷ "gemfile-lock" ∷ "geojson" ∷ "ggb" ∷ "gherkin" ∷ "gif" ∷ "gitattributes" ∷ "gitconfig"
    ∷ "gitignore" ∷ "gitlint" ∷ "gitmodules" ∷ "gleam" ∷ "go" ∷ "go-mod" ∷ "go-sum" ∷ "gotmpl"
    ∷ "gpx" ∷ "graphql" ∷ "groovy" ∷ "gyb" ∷ "gyp" ∷ "gzip" ∷ "handlebars" ∷ "haskell" ∷ "hcl"
    ∷ "header" ∷ "hgrc" ∷ "hlsl" ∷ "html" ∷ "icalendar" ∷ "icns" ∷ "icon" ∷ "idl" ∷ "idris"
    ∷ "image" ∷ "inc" ∷ "ini" ∷ "inl" ∷ "ino" ∷ "inx" ∷ "ipxe" ∷ "isort" ∷ "jade" ∷ "jar" ∷ "java"
    ∷ "java-properties" ∷ "javascript" ∷ "jbuilder" ∷ "jenkins" ∷ "jinja" ∷ "jpeg" ∷ "jshintrc"
    ∷ "json" ∷ "json5" ∷ "jsonc" ∷ "jsonld" ∷ "jsonnet" ∷ "jsx" ∷ "julia" ∷ "jupyter" ∷ "kml"
    ∷ "kotlin" ∷ "ksh" ∷ "lazarus" ∷ "lazarus-form" ∷ "lean" ∷ "lektor" ∷ "lektorproject" ∷ "less"
    ∷ "liquid" ∷ "literate-haskell" ∷ "lua" ∷ "luau" ∷ "m4" ∷ "magik" ∷ "mailmap" ∷ "makefile"
    ∷ "manifest" ∷ "map" ∷ "markdown" ∷ "mdx" ∷ "mention-bot" ∷ "meson" ∷ "meson-options" ∷ "metal"
    ∷ "mib" ∷ "modulemap" ∷ "msbuild" ∷ "musescore" ∷ "mustache" ∷ "myst" ∷ "ngdoc" ∷ "nim"
    ∷ "nimble" ∷ "nix" ∷ "non-executable" ∷ "npmignore" ∷ "nunjucks" ∷ "nushell" ∷ "objective-c"
    ∷ "objective-c++" ∷ "ocaml" ∷ "otf" ∷ "p12" ∷ "pascal" ∷ "pdbrc" ∷ "pdf" ∷ "pem" ∷ "perl"
    ∷ "php" ∷ "php7" ∷ "php8" ∷ "pipfile-lock" ∷ "piskel" ∷ "pkgbuild" ∷ "plain-text" ∷ "plantuml"
    ∷ "plist" ∷ "png" ∷ "poetry-lock" ∷ "pofile" ∷ "pom" ∷ "powershell" ∷ "ppm" ∷ "prettierignore"
    ∷ "prisma" ∷ "proto" ∷ "pug" ∷ "puppet" ∷ "purescript" ∷ "pyi" ∷ "pylintrc" ∷ "pypirc"
    ∷ "pyproj" ∷ "pyproject" ∷ "python" ∷ "python2" ∷ "python3" ∷ "pyz" ∷ "qml" ∷ "quarto" ∷ "r"
    ∷ "relax-ng" ∷ "resx" ∷ "robot" ∷ "rst" ∷ "ruby" ∷ "rust" ∷ "salt" ∷ "salt-lint" ∷ "sas"
    ∷ "sass" ∷ "sbt" ∷ "scala" ∷ "scheme" ∷ "scons" ∷ "scss" ∷ "sh" ∷ "shell" ∷ "sln" ∷ "slnx"
    ∷ "socket" ∷ "solidity" ∷ "spec" ∷ "sql" ∷ "stylus" ∷ "svelte" ∷ "svg" ∷ "swf" ∷ "swift"
    ∷ "swiftdeps" ∷ "symlink" ∷ "system-verilog" ∷ "tar" ∷ "tcsh" ∷ "templ" ∷ "terraform" ∷ "tex"
    ∷ "text" ∷ "textproto" ∷ "thrift" ∷ "tiff" ∷ "tiltfile" ∷ "toml" ∷ "ts" ∷ "tsv" ∷ "tsx" ∷ "ttf"
    ∷ "twig" ∷ "twisted" ∷ "txsprofile" ∷ "urdf" ∷ "uv-lock" ∷ "vala" ∷ "vb" ∷ "vbproj" ∷ "vcxproj"
    ∷ "vdx" ∷ "verilog" ∷ "vhdl" ∷ "vim" ∷ "vtl" ∷ "vue" ∷ "wav" ∷ "webp" ∷ "wheel" ∷ "wixproj"
    ∷ "wkt" ∷ "woff" ∷ "woff2" ∷ "wsdl" ∷ "wsgi" ∷ "wxi" ∷ "wxl" ∷ "wxs" ∷ "xacro" ∷ "xaml"
    ∷ "xcconfig" ∷ "xcodebuild" ∷ "xcprivacy" ∷ "xcscheme" ∷ "xcsettings" ∷ "xctestplan"
    ∷ "xcworkspacedata" ∷ "xhtml" ∷ "xliff" ∷ "xml" ∷ "xquery" ∷ "xsd" ∷ "xsl" ∷ "yaml" ∷ "yamlld"
    ∷ "yamllint" ∷ "yang" ∷ "yin" ∷ "zcml" ∷ "zig" ∷ "zip" ∷ "zpt" ∷ "zsh" ∷ [])

abbrev pub tag_file : ℕ
tag_file = 78

abbrev pub tag_directory : ℕ
tag_directory = 58

abbrev pub tag_symlink : ℕ
tag_symlink = 255

abbrev pub tag_socket : ℕ
tag_socket = 245

abbrev pub tag_executable : ℕ
tag_executable = 74

abbrev pub tag_non_executable : ℕ
tag_non_executable = 179

abbrev pub tag_text : ℕ
tag_text = 262

abbrev pub tag_binary : ℕ
tag_binary = 21
