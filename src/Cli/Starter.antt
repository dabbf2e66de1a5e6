-- ===== src/Cli/Starter.antt =====
-- The files of the starter app in internal/cli/cli.go.
use quicframe.Prelude.{ℕ, zero, suc, List, [], ◌∷◌, ◌++◌}
use quicframe.Prelude.Text.{Text, codes}

-- The lines of a text, each with its line feed.
abbrev pub lines : List Text → Text
lines [] = []
lines (l ∷ ls) = l ++ 10 ∷ lines ls

abbrev pub starter_go_mod : Text → Text
starter_go_mod module_name = lines ((codes "module " ++ module_name) ∷ [] ∷ codes "go 1.24.0" ∷ [])

abbrev pub starter_git_ignore : Text
starter_git_ignore = lines (codes ".local/" ∷ [])

abbrev pub starter_readme : Text → Text
starter_readme module_name = lines (
    (codes "# " ++ module_name)
    ∷ []
    ∷ codes "Starter app generated by QuicFrame CLI."
    ∷ []
    ∷ codes "## Run"
    ∷ []
    ∷ codes "```bash"
    ∷ codes "go mod tidy"
    ∷ codes "go run ."
    ∷ codes "```"
    ∷ []
    ∷ codes "## Endpoints"
    ∷ []
    ∷ codes "- Native QUIC: `:4433`"
    ∷ codes "- WebTransport: `:4434` at `/wt`"
    ∷ codes "- Health check: `/ping`"
    ∷ [])

-- Tabs at the start of a line.
abbrev tabs : ℕ → Text
tabs zero = []
tabs (suc n) = 9 ∷ tabs n

abbrev pub starter_main_go : Text
starter_main_go = lines (
    codes "package main"
    ∷ []
    ∷ codes "import ("
    ∷ (tabs 1 ++ codes "\"context\"")
    ∷ (tabs 1 ++ codes "\"log\"")
    ∷ []
    ∷ (tabs 1 ++ codes "qf \"github.com/msmecodex/quicframe/framework\"")
    ∷ (tabs 1 ++ codes "\"github.com/msmecodex/quicframe/middleware\"")
    ∷ (tabs 1 ++ codes "\"github.com/msmecodex/quicframe/tlsutil\"")
    ∷ codes ")"
    ∷ []
    ∷ codes "func main() {"
    ∷ (tabs 1 ++ codes "app := qf.New()")
    ∷ (tabs 1 ++ codes "app.Use(")
    ∷ (tabs 2 ++ codes "middleware.Recovery(),")
    ∷ (tabs 2 ++ codes "middleware.Logger(),")
    ∷ (tabs 1 ++ codes ")")
    ∷ []
    ∷ (tabs 1 ++ codes "app.GET(\"/ping\", func(c *qf.Context) error {")
    ∷ (tabs 2 ++ codes "return c.MsgPack(200, map[string]string{\"pong\": \"ok\"})")
    ∷ (tabs 1 ++ codes "})")
    ∷ []
    ∷ (tabs 1 ++ codes "tlsCfg, err := tlsutil.LoadOrCreateSelfSigned(")
    ∷ (tabs 2 ++ codes "\".local/certs/localhost-cert.pem\",")
    ∷ (tabs 2 ++ codes "\".local/certs/localhost-key.pem\",")
    ∷ (tabs 2 ++ codes "\"localhost\",")
    ∷ (tabs 2 ++ codes "\"127.0.0.1\",")
    ∷ (tabs 1 ++ codes ")")
    ∷ (tabs 1 ++ codes "if err != nil {")
    ∷ (tabs 2 ++ codes "log.Fatal(err)")
    ∷ (tabs 1 ++ codes "}")
    ∷ []
    ∷ (tabs 1 ++ codes "log.Println(\"QuicFrame server listening on :4433 and :4434\")")
    ∷ (tabs 1
        ++ codes
            "if err := app.ListenAddr(context.Background(), \":4433\", \":4434\", tlsCfg); err != nil {")
    ∷ (tabs 2 ++ codes "log.Fatal(err)")
    ∷ (tabs 1 ++ codes "}")
    ∷ codes "}"
    ∷ [])
