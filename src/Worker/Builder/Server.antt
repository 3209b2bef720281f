-- ===== src/Worker/Builder/Server.antt =====
-- worker/builder.py: the script that the buildpack builder appends for a static site.
use deploy_hub.Prelude.{String, List, [], ◌∷◌}

-- The lines of the heredoc that writes server.cjs, and those that make it the start script.
abbrev pub server_lines : List String
server_lines =
    "cat << 'EOF' > server.cjs" ∷ "const http = require('http');" ∷ "const fs = require('fs');"
    ∷ "const path = require('path');" ∷ "const PORT = process.env.PORT || 8080;"
    ∷ "const dirs = ['dist', 'build', 'out', 'public', '.'];" ∷ "let DIR = __dirname;"
    ∷ "for (const d of dirs) {" ∷ "    if (fs.existsSync(path.join(__dirname, d, 'index.html'))) {"
    ∷ "        DIR = path.join(__dirname, d);" ∷ "        break;" ∷ "    }" ∷ "}"
    ∷ "const mimeTypes = {"
    ∷ "    '.html': 'text/html', '.js': 'text/javascript', '.css': 'text/css',"
    ∷ "    '.json': 'application/json', '.png': 'image/png', '.jpg': 'image/jpg',"
    ∷ "    '.svg': 'image/svg+xml', '.ico': 'image/x-icon', '.woff': 'application/font-woff',"
    ∷ "    '.woff2': 'application/font-woff2', '.ttf': 'application/font-ttf'" ∷ "};"
    ∷ "const server = http.createServer((req, res) => {" ∷ "    let reqUrl = req.url.split('?')[0];"
    ∷ "    let filePath = path.join(DIR, reqUrl === '/' ? 'index.html' : reqUrl);"
    ∷ "    let extname = path.extname(filePath);" ∷ "    if (!extname) {"
    ∷ "        filePath = path.join(DIR, 'index.html');" ∷ "        extname = '.html';" ∷ "    }"
    ∷ "    fs.readFile(filePath, (err, content) => {" ∷ "        if (err) {"
    ∷ "            if (err.code === 'ENOENT') {"
    ∷ "                fs.readFile(path.join(DIR, 'index.html'), (err2, content2) => {"
    ∷ "                    if (err2) { res.writeHead(500); res.end('Error'); }"
    ∷ "                    else { res.writeHead(200, { 'Content-Type': 'text/html' }); res.end(content2, 'utf-8'); }"
    ∷ "                });" ∷ "            } else {"
    ∷ "                res.writeHead(500); res.end(`Server Error: ${err.code}`);" ∷ "            }"
    ∷ "        } else {"
    ∷ "            res.writeHead(200, { 'Content-Type': mimeTypes[extname] || 'application/octet-stream' });"
    ∷ "            res.end(content, 'utf-8');" ∷ "        }" ∷ "    });" ∷ "});"
    ∷ "server.listen(PORT, () => console.log(`Static server listening on port ${PORT} serving ${DIR}`));"
    ∷ "EOF" ∷ "# Inject start script" ∷ "if [ -f package.json ]; then"
    ∷ "  sed -i 's/\"scripts\": {/\"scripts\": { \"start\": \"node server.cjs\",/' package.json"
    ∷ "fi" ∷ []
